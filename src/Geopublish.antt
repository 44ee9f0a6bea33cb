-- ===== src/Geopublish.antt =====
-- app/geopublish: uploads that are published by a queue of their own.
pub mod Table
pub mod Processing
pub mod Status
pub mod Files
pub mod Notify
pub mod Rows
pub mod Advance
pub mod Sends
pub mod Sound
pub mod Handover
pub mod Publishing
pub mod Verdicts
pub mod Foreign
pub mod Carriage
pub mod Delivery
