-- ===== src/Caller/Retry.antt =====
-- The attempts of SendQuery, seen through an SDK that counts what is asked of it.
use odysee_api.Base.{ℕ, zero, suc, ◌+◌, ◌≤◌, ◌<◌, String, ◌≡◌, ◌⊎◌, inl, false, arith, refl, ℤ}
use odysee_api.Errors.{Result, ok, err}
use odysee_api.Rpc.{Request, Response}
use odysee_api.Caller.{
  Sdk, is_err_wallet_not_loaded, is_err_wallet_already_loaded, reload_wallet, attempts,
}

-- A world with the numbers of calls, wallet loads and user deletions so far.
pub record Counted (W : Type 0) : Type 0 where
  pub world : W
  pub calls : ℕ
  pub loads : ℕ
  pub deletions : ℕ

-- An SDK with its calls counted.
abbrev pub counted : {W : Type 0} → Sdk W → Sdk (Counted W)
counted sdk = record {
  call_raw = λ e req w.
      let (r, v) = sdk.call_raw e req w.world in (r, record w { world = v; calls = suc w.calls });
  load_wallet = λ e u w.
      let (r, v) = sdk.load_wallet e u w.world in (r, record w { world = v; loads = suc w.loads });
  delete_user = λ u w.
      let (r, v) = sdk.delete_user u w.world in
      (r, record w { world = v; deletions = suc w.deletions });
  errors = sdk.errors;
}

module _ {W : Type 0} (sdk : Sdk W) where
  -- Neither wallet error: a response that ends the attempts.
  abbrev pub IsSettled : Response → Type 0
  IsSettled r =
      (is_err_wallet_not_loaded sdk.errors r ≡ false)
      × (is_err_wallet_already_loaded sdk.errors r ≡ false)

  -- What `left` more attempts did: at least one call and at most `left + 1`, at most one load for
  -- each call, a deletion only after the last one; and a response that is still a wallet error
  -- only when every attempt was used.
  pub record Spent (left : ℕ) (w : Counted W) (out : Result Response × Counted W) : Type 0 where
    pub called : w.calls < out.1.calls
    pub bounded : out.1.calls ≤ w.calls + left + 1
    pub loaded : out.1.loads + w.calls ≤ w.loads + out.1.calls
    pub deleted :
        (out.1.deletions ≡ w.deletions)
        ⊎ ((out.1.deletions ≡ w.deletions + 1) × (out.1.calls ≡ w.calls + left + 1))
    pub settled : (r : Response) → out.0 ≡ ok r → IsSettled r ⊎ (out.1.calls ≡ w.calls + left + 1)

  -- One call more in front of attempts that were spent.
  Spent-suc :
      (left : ℕ) (w v : Counted W) (out : Result Response × Counted W)
      → v.calls ≡ suc w.calls
      → v.loads ≤ suc w.loads
      → v.deletions ≡ w.deletions
      → Spent left v out
      → Spent (suc left) w out
  Spent-suc left w v out c l d s = record {
    called = omega (arith, s.called);
    bounded = omega (arith, s.bounded);
    loaded = omega (arith, s.loaded);
    deleted = ground (arith, s.deleted);
    settled = λ r e. ground (arith, s.settled r e);
  }

  attempts-Spent :
      (endpoint : String) (user : ℤ) (req : Request) (left : ℕ) (w : Counted W)
      → Spent left w (attempts (counted sdk) endpoint user req left w)
  unfolding attempts reload_wallet
  attempts-Spent endpoint user req zero w = record {
    called = ground arith;
    bounded = ground arith;
    loaded = ground arith;
    deleted = ground arith;
    settled = λ r e. ground arith;
  }
  attempts-Spent endpoint user req (suc left) w =
      let called : Counted W = record w {
        world = (sdk.call_raw endpoint req w.world).1;
        calls = suc w.calls;
      } in
      let reloaded : Counted W = reload_wallet (counted sdk) endpoint user (suc left) called in
      let again =
        Spent-suc left w called _ refl (omega arith) refl
          (attempts-Spent endpoint user req left called) in
      let reloaded_again =
        Spent-suc left w reloaded _ (ground arith) (ground arith) (ground arith)
          (attempts-Spent endpoint user req left reloaded) in
      record {
        called = ground (arith, again.called, reloaded_again.called);
        bounded = ground (arith, again.bounded, reloaded_again.bounded);
        loaded = ground (arith, again.loaded, reloaded_again.loaded);
        deleted = ground (arith, again.deleted, reloaded_again.deleted);
        settled = λ r e. ground (arith, again.settled r, reloaded_again.settled r);
      }

  -- An error of the call, or a response with neither wallet error.
  abbrev pub Settled : Result Response → Type 0
  Settled (err e) = Unit {0}
  Settled (ok r) = IsSettled r

  Settled-result :
      (out : Result Response) (n m : ℕ)
      → ((r : Response) → out ≡ ok r → IsSettled r ⊎ (n ≡ m))
      → Settled out ⊎ (n ≡ m)
  Settled-result (err e) n m h = inl tt
  Settled-result (ok r) n m h = h r refl

-- SendQuery's three attempts on a counting SDK: one to three calls are made, at most one wallet
-- load for each, at most one user deletion and only after the third call, and a response with a
-- wallet error comes back only when all three calls were made.
pub three_attempts :
    {W : Type 0} (sdk : Sdk W) (endpoint : String) (user : ℤ) (req : Request) (w : Counted W)
    → let out = attempts (counted sdk) endpoint user req 2 w in
      (w.calls < out.1.calls)
      × (out.1.calls ≤ w.calls + 3)
      × (out.1.loads + w.calls ≤ w.loads + out.1.calls)
      × ((out.1.deletions ≡ w.deletions)
          ⊎ ((out.1.deletions ≡ w.deletions + 1) × (out.1.calls ≡ w.calls + 3)))
      × (Settled sdk out.0 ⊎ (out.1.calls ≡ w.calls + 3))
three_attempts sdk endpoint user req w =
    let s = attempts-Spent sdk endpoint user req 2 w in
    let settled = Settled-result sdk _ _ _ s.settled in
    (
      s.called,
      omega (arith, s.bounded),
      s.loaded,
      ground (arith, s.deleted),
      ground (arith, settled),
    )
