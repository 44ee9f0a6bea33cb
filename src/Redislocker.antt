-- ===== src/Redislocker.antt =====
-- pkg/redislocker/redislocker.go: the locks of uploads. redsync is a record over a world `W`, with a
-- mutex of a type `M` for each lock; the function by which a holder is asked to let go is a value of
-- a type `F`. Metrics are left out, and so is the mutex over the table of holders, under which each
-- access to it is one step.
pub mod Holders
use Prim.Native.String.{◌++◌}
use odysee_api.Base.{String, Bool, true, false, Option, none, some, Dict, lookup, insert, delete}
use odysee_api.Errors.{Error, plain, wrapped, enclosed, message}

-- Mutex.LockContext, Mutex.Unlock, a call of the function, tusd's two errors, and whether the
-- context of a request is over.
pub record Redsync (M F W : Type 0) : Type 0 where
  pub lock_context : M → W → Option Error × W
  pub unlock : M → W → (Bool × Option Error) × W
  pub request_release : F → W → W
  pub err_lock_timeout : Error
  pub err_file_locked : Error
  pub is_over : W → Bool

-- lock
pub record Lock (M : Type 0) : Type 0 where
  pub name : String
  pub mutex : M

-- The holders of the Locker, and the world.
pub record Locker (F W : Type 0) : Type 0 where
  pub holders : Dict F
  pub world : W

module _ {M F W : Type 0} (r : Redsync M F W) where
  abbrev pub ask : Option F → W → W
  ask none w = w
  ask (some f) w = r.request_release f w

  abbrev lock_error : Bool → String → Error → Error
  lock_error true name e = enclosed "" r.err_lock_timeout (": file " ++ name ++ ": " ++ message e)
  lock_error false name e = enclosed "" r.err_file_locked (": file " ++ name ++ ": " ++ message e)

  abbrev pub after_lock : Lock M → F → Dict F → Option Error × W → Option Error × Locker F W
  after_lock l f holders (none, w) = (none, record { holders = insert l.name f holders; world = w })
  after_lock l f holders (some e, w) =
      (some (lock_error (r.is_over w) l.name e), record { holders = holders; world = w })

  -- Lock, with the function by which this holder is asked to let go.
  unfoldable pub lock : Lock M → F → Locker F W → Option Error × Locker F W
  lock l f s =
      after_lock l f s.holders (r.lock_context l.mutex (ask (lookup l.name s.holders) s.world))

  abbrev unlock_error : String → Bool → Option Error → Option Error
  unlock_error name true none = none
  unlock_error name done (some e) = some (wrapped ("cannot unlock file " ++ name ++ ": ") e)
  unlock_error name false none = some (plain ("cannot unlock file " ++ name ++ ": %!w(<nil>)"))

  abbrev pub after_unlock : Lock M → Dict F → (Bool × Option Error) × W → Option Error × Locker F W
  after_unlock l holders ((done, e), w) =
      (unlock_error l.name done e, record { holders = holders; world = w })

  -- Unlock
  unfoldable pub unlock : Lock M → Locker F W → Option Error × Locker F W
  unlock l s = after_unlock l (delete l.name s.holders) (r.unlock l.mutex s.world)
