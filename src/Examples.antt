-- ===== src/Examples.antt =====
-- Concrete inputs of the query package and its neighbours, and what the theorems say of them.
mod Queries
mod Calls
mod Caching
mod Streams
mod Servers
mod Serving
mod Uploading
mod Queued
mod Users
mod Proxying
mod Lifting
mod Addresses
mod Queueing
mod Publishing
mod Carrying
mod Tokens
