-- ===== src/Redislocker/Holders.antt =====
-- Who is asked to let go of a lock.
use odysee_api.Base.{
  ◌≡◌, refl, ◌∙◌, Option, none, some, arith, eq_refl, lookup, delete, lookup-insert_self,
  lookup-delete,
}
use odysee_api.Errors.{Error}
use odysee_api.Redislocker.{Redsync, Lock, Locker, ask, after_lock, lock, unlock}

module _ {M F W : Type 0} (r : Redsync M F W) where
  lock-world :
      (l : Lock M) (f : F) (s : Locker F W)
      → (lock r l f s).1.world
        ≡ (r.lock_context l.mutex (ask r (lookup l.name s.holders) s.world)).1
  unfolding lock
  lock-world l f s = on_locked (r.lock_context l.mutex (ask r (lookup l.name s.holders) s.world))
    where
      on_locked : (o : Option Error × W) → (after_lock r l f s.holders o).1.world ≡ o.1
      on_locked (none, w) = refl
      on_locked (some e, w) = refl

  lock-holder :
      (l : Lock M) (f : F) (s : Locker F W)
      → (lock r l f s).0 ≡ none
      → lookup l.name (lock r l f s).1.holders ≡ some f
  unfolding lock
  lock-holder l f s = on_locked (r.lock_context l.mutex (ask r (lookup l.name s.holders) s.world))
    where
      on_locked :
          (o : Option Error × W)
          → (after_lock r l f s.holders o).0 ≡ none
          → lookup l.name (after_lock r l f s.holders o).1.holders ≡ some f
      on_locked (none, w) h = lookup-insert_self l.name f s.holders
      on_locked (some e, w) h = cc

  -- Once a lock is taken, the next request for its file asks the holder to let go, before it tries
  -- the lock.
  pub holder_asked :
      (a b : Lock M) (f g : F) (s : Locker F W)
      → a.name ≡ b.name
      → (lock r a f s).0 ≡ none
      → (lock r b g (lock r a f s).1).1.world
        ≡ (r.lock_context b.mutex (r.request_release f (lock r a f s).1.world)).1
  holder_asked a b f g s same taken =
      let held : lookup b.name (lock r a f s).1.holders ≡ some f =
        rw (← same) (lock-holder a f s taken) in
      lock-world b g (lock r a f s).1 ∙ rw held refl

  unlock-holders :
      (a : Lock M) (s : Locker F W) → (unlock r a s).1.holders ≡ delete a.name s.holders
  unfolding unlock
  unlock-holders a s = refl

  -- After any Unlock of a file's lock, also one that redis refuses because the lock has run out and
  -- is another's, the next request for the file asks nobody to let go.
  pub stale_unlock_forgets :
      (a b : Lock M) (g : F) (s : Locker F W)
      → a.name ≡ b.name
      → (lock r b g (unlock r a s).1).1.world ≡ (r.lock_context b.mutex (unlock r a s).1.world).1
  stale_unlock_forgets a b g s same =
      let gone : lookup b.name (unlock r a s).1.holders ≡ none =
        rw (unlock-holders a s, ← same)
          (ground (arith, lookup-delete a.name a.name s.holders, eq_refl a.name)) in
      lock-world b g (unlock r a s).1 ∙ rw gone refl
