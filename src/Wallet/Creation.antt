-- ===== src/Wallet/Creation.antt =====
-- What Create does about a wallet that exists.
use odysee_api.Base.{
  String, ◌≡◌, ◌≢◌, refl, ap, none, some, Option, ◌⊎◌, inl, inr, true, arith, eq_iff, eq_refl, ℤ,
}
use odysee_api.Errors.{
  sdk, sentinel, wallet_error, wallet_exists, wallet_not_loaded, wallet_already_loaded, Error,
  new_wallet_error, is, same_sentinel,
}
use odysee_api.SdkRouter.{wallet_id}
use odysee_api.Wallet.{WalletSdk, create, create_wallet, load_wallet}

pub data WalletState : Type 0 where
  absent stored loaded : WalletState

-- The error that the wallet exists
abbrev pub SaysExists : {W : Type 0} → WalletSdk W → Option Error → Type 0
SaysExists s e = (m : String) × (e ≡ some (sdk s.names.already_exists m))

-- How an SDK server answers for one wallet, by the state that it has the wallet in, as
-- wallet_test.go and the texts of internal/lbrynet/errors.go have it. A wallet that is loaded is
-- refused as loaded or as existing; one that is stored as not loaded or as existing.
pub record SdkLaws {W : Type 0} (s : WalletSdk W) (address id : String) (state : W → WalletState)
    : Type 0 where
  pub create_absent :
      (w : W)
      → state w ≡ absent
      → ((s.wallet_create address id w).0 ≡ none)
        × (state (s.wallet_create address id w).1 ≡ loaded)
  pub create_loaded :
      (w : W)
      → state w ≡ loaded
      → (m : String) × (((s.wallet_create address id w).0 ≡ some (sdk s.names.already_loaded m))
          ⊎ ((s.wallet_create address id w).0 ≡ some (sdk s.names.already_exists m)))
        × (state (s.wallet_create address id w).1 ≡ loaded)
  pub create_stored :
      (w : W)
      → state w ≡ stored
      → (m : String) × (((s.wallet_create address id w).0 ≡ some (sdk s.names.not_loaded m))
          ⊎ ((s.wallet_create address id w).0 ≡ some (sdk s.names.already_exists m)))
        × (state (s.wallet_create address id w).1 ≡ stored)
  pub add_stored :
      (w : W)
      → state w ≡ stored
      → ((s.wallet_add address id w).0 ≡ none) × (state (s.wallet_add address id w).1 ≡ loaded)
  pub distinct :
      (s.names.not_found ≢ s.names.already_exists)
      × (s.names.not_found ≢ s.names.not_loaded)
      × (s.names.not_found ≢ s.names.already_loaded)
      × (s.names.already_exists ≢ s.names.not_loaded)
      × (s.names.already_exists ≢ s.names.already_loaded)
      × (s.names.not_loaded ≢ s.names.already_loaded)

module _ {W : Type 0} (s : WalletSdk W) (address : String) (user : ℤ) (state : W → WalletState)
    (laws : SdkLaws s address (wallet_id user) state) where
  exists-error :
      (m : String)
      → new_wallet_error s.names (sdk s.names.already_exists m)
        ≡ wallet_error (sentinel wallet_exists)
  unfolding new_wallet_error
  exists-error m = ground (
    arith,
    eq_iff s.names.already_exists s.names.not_found,
    eq_refl s.names.already_exists,
    laws.distinct.0,
  )

  not_loaded-error :
      (m : String)
      → new_wallet_error s.names (sdk s.names.not_loaded m)
        ≡ wallet_error (sentinel wallet_not_loaded)
  unfolding new_wallet_error
  not_loaded-error m = ground (
    arith,
    eq_iff s.names.not_loaded s.names.not_found,
    eq_iff s.names.not_loaded s.names.already_exists,
    eq_refl s.names.not_loaded,
    laws.distinct,
  )

  loaded-error :
      (m : String)
      → new_wallet_error s.names (sdk s.names.already_loaded m)
        ≡ wallet_error (sentinel wallet_already_loaded)
  unfolding new_wallet_error
  loaded-error m = ground (
    arith,
    eq_iff s.names.already_loaded s.names.not_found,
    eq_iff s.names.already_loaded s.names.already_exists,
    eq_iff s.names.already_loaded s.names.not_loaded,
    eq_refl s.names.already_loaded,
    laws.distinct,
  )

  pair_eq : {A B : Type 0} (p : A × B) (a : A) → p.0 ≡ a → p ≡ (a, p.1)
  pair_eq p a e = ap (λ x. (x, p.1)) e

  abbrev Recovered : W → Type 0
  Recovered w =
      ((create s address user w).0 ≡ none)
      × ((state (create s address user w).1 ≡ loaded)
          ⊎ ((state w ≡ stored)
              × (state (create s address user w).1 ≡ stored)
              × SaysExists s (s.wallet_create address (wallet_id user) w).0))

  -- After this error of the SDK, Create keeps the state and gives no error.
  kept :
      (w : W) (e f : Error)
      → (s.wallet_create address (wallet_id user) w).0 ≡ some e
      → new_wallet_error s.names e ≡ f
      → (is f wallet_already_loaded ≡ true) ⊎ (f ≡ wallet_error (sentinel wallet_exists))
      → create s address user w ≡ (none, (s.wallet_create address (wallet_id user) w).1)
  unfolding create create_wallet is same_sentinel
  kept w e f r n (inl a) = rw (pair_eq (s.wallet_create address (wallet_id user) w) _ r, n, a) refl
  kept w e f r n (inr a) = rw (pair_eq (s.wallet_create address (wallet_id user) w) _ r, n, a) refl

  kept_existing :
      (w : W) (m : String)
      → (s.wallet_create address (wallet_id user) w).0 ≡ some (sdk s.names.already_exists m)
      → create s address user w ≡ (none, (s.wallet_create address (wallet_id user) w).1)
  kept_existing w m r = kept w _ _ r (exists-error m) (inr refl)

  create-absent : (w : W) → state w ≡ absent → Recovered w
  unfolding create create_wallet
  create-absent w h =
      let (r, l) = laws.create_absent w h in
      rw (pair_eq (s.wallet_create address (wallet_id user) w) none r) (refl, inl l)

  create-loaded : (w : W) → state w ≡ loaded → Recovered w
  unfolding is same_sentinel
  create-loaded w h =
      let (m, r, l) = laws.create_loaded w h in
      elim r [
        | inl a ↦ rw (kept w _ _ a (loaded-error m) (inl refl)) (refl, inl l)
        | inr a ↦ rw (kept_existing w m a) (refl, inl l)
      ]

  create-stored : (w : W) → state w ≡ stored → Recovered w
  unfolding create create_wallet load_wallet is same_sentinel
  create-stored w h =
      let (m, r, l) = laws.create_stored w h in
      elim r [
        | inr a ↦ rw (kept_existing w m a) (refl, inr (h, l, (m, a)))
        | inl a ↦
            let v = (s.wallet_create address (wallet_id user) w).1 in
            let (b, c) = laws.add_stored v l in
            rw
              (
                pair_eq (s.wallet_create address (wallet_id user) w) _ a,
                not_loaded-error m,
                pair_eq (s.wallet_add address (wallet_id user) v) none b,
              )
              (refl, inl c)
      ]

  create-on : (st : WalletState) (w : W) → state w ≡ st → Recovered w
  create-on absent w h = create-absent w h
  create-on loaded w h = create-loaded w h
  create-on stored w h = create-stored w h

  -- Whether the SDK server has the user's wallet loaded, has it stored or does not have it, Create
  -- gives no error. It leaves the wallet loaded, but for one that is stored and that the SDK refuses
  -- to create as existing: that one stays stored.
  pub create_loads :
      (w : W)
      → ((create s address user w).0 ≡ none)
        × ((state (create s address user w).1 ≡ loaded)
            ⊎ ((state w ≡ stored)
                × (state (create s address user w).1 ≡ stored)
                × SaysExists s (s.wallet_create address (wallet_id user) w).0))
  create_loads w = create-on (state w) w refl
