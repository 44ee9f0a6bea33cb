-- ===== src/Wallet/Assignment.antt =====
-- A user who is let in has an SDK server.
use odysee_api.Base.{
  ◌∙◌, ℕ, zero, suc, ◌≡◌, ◌≢◌, refl, Bool, true, false, Option, none, some, arith, eqb_ℤ_iff, ℤ,
  pos, ◌==◌, Option-cases, inl, inr,
}
use odysee_api.Errors.{Error, Result, ok, err}
use odysee_api.SdkRouter.{Server}
use odysee_api.Wallet.{
  User, UserDb, By, WalletSdk, LbrynetServer, get_or_create_local_user, create_user, get_db_user,
  lookup_of, local_user, assign_sdk_server_to_user, assign_if_none, after_server, after_reload,
  after_update, in_tx_rounds, after_begin, after_work, after_failure, committed, pg_code,
  aborted_transaction_violation,
}

abbrev pub is_some : {A : Type 0} → Option A → Bool
is_some none = false
is_some (some a) = true

-- The user's row names a server of the table, which is the one that comes with the user.
abbrev pub HasServer : (ℤ → Option Server) → User → Type 0
HasServer servers u =
    (i : ℤ) × (s : Server) × (u.server_id ≡ some i) × (u.server ≡ some s) × (servers i ≡ some s)

-- What the program relies on in the database, with this table of servers: a user is found with the
-- server that its row names, the server of a user is the one that it names, and a user whose row
-- was not updated, since it has a server or is not there, has a server if it is read again.
pub record DbLaws {W : Type 0} (db : UserDb W) (servers : ℤ → Option Server) : Type 0 where
  pub joined :
      (by : By) (w : W) (u : User) (i : ℤ)
      → (db.find by w).0 ≡ ok u
      → u.server_id ≡ some i
      → (u.server ≡ servers i) × (is_some (servers i) ≡ true)
  pub reloaded :
      (server : ℤ) (u v : User) (w : W)
      → (db.set_server server u.id w).0 ≡ ok 0
      → (db.reload u (db.set_server server u.id w).1).0 ≡ ok v
      → is_some v.server_id ≡ true
  pub related :
      (u : User) (w : W) (s : Server) (i : ℤ)
      → (db.server_of u w).0 ≡ ok s
      → u.server_id ≡ some i
      → servers i ≡ some s

module _ {A W : Type 0} (db : UserDb W) (f : W → Result A × W) (a : A) where
  -- The function has this result somewhere.
  abbrev Gives : Type 0
  Gives = (x : W) × ((f x).0 ≡ ok a)

  committed-ok : (b : A) (c : Option Error × W) → (committed db f b c).0 ≡ ok a → b ≡ a
  committed-ok b c k = ground arith

  module _ (retry : Error → W → Result A × W)
      (h : (e : Error) (v : W) → (retry e v).0 ≡ ok a → Gives) where
    after_failure-ok :
        (e : Error) (w : W) (again : Bool) → (after_failure db f retry e w again).0 ≡ ok a → Gives
    after_failure-ok e w true k = h e (db.rollback w) k
    after_failure-ok e w false k = absurd (ground arith)

    after_work-ok :
        (v : W) (r : Result A × W) → (f v).0 ≡ r.0 → (after_work db f retry r).0 ≡ ok a → Gives
    after_work-ok v (ok b, w) e k =
        let same : b ≡ a = committed-ok b (db.commit w) k in (v, rw e (rw same refl))
    after_work-ok v (err x, w) e k =
        after_failure-ok x w (pg_code x == aborted_transaction_violation) k

    after_begin-ok : (b : Option Error × W) → (after_begin db f retry b).0 ≡ ok a → Gives
    after_begin-ok (some e, w) k = absurd (ground arith)
    after_begin-ok (none, w) k = after_work-ok w (f w) refl k

  -- A result of inTx is one of its function.
  in_tx_rounds-ok : (n : ℕ) (w : W) → (in_tx_rounds db f n w).0 ≡ ok a → Gives
  unfolding in_tx_rounds
  in_tx_rounds-ok zero w k =
      after_begin-ok (λ e v. (err e, v)) (λ e v x. absurd (ground arith)) (db.begin w) k
  in_tx_rounds-ok (suc n) w k =
      after_begin-ok (λ e v. in_tx_rounds db f n v) (λ e v x. in_tx_rounds-ok n v x) (db.begin w) k

module _ {W : Type 0} (db : UserDb W) (servers : ℤ → Option Server) (laws : DbLaws db servers)
    (sdk : WalletSdk W) (chosen : LbrynetServer) (in_db : chosen.id ≢ pos 0) where
  get_or_create-joined :
      (u v : User) (w : W) (i : ℤ)
      → u.server_id ≡ none
      → (get_or_create_local_user db u w).0 ≡ ok v
      → v.server_id ≡ some i
      → (v.server ≡ servers i) × (is_some (servers i) ≡ true)
  unfolding get_or_create_local_user create_user get_db_user
  get_or_create-joined u v w i n h k = ground (
    arith,
    laws.joined (lookup_of u) w v i,
    laws.joined (lookup_of u) (db.insert u (db.find (lookup_of u) w).1).1 v i,
  )

  after_server-HasServer :
      (server : Server) (fresh : Bool) (u v : User) (i : ℤ) (r : Result Server × W)
      → u.server_id ≡ some i
      → ((s : Server) → r.0 ≡ ok s → servers i ≡ some s)
      → (after_server db sdk server fresh u r).0 ≡ ok v
      → HasServer servers v
  after_server-HasServer server fresh u v i (err e, w) n law h = absurd (ground arith)
  after_server-HasServer server true u v i (ok s, w) n law h =
      (i, s, ground arith, ground arith, law s refl)
  after_server-HasServer server false u v i (ok s, w) n law h =
      (i, s, ground arith, ground arith, law s refl)

  related-HasServer :
      (server : Server) (fresh : Bool) (u v : User) (i : ℤ) (w : W)
      → u.server_id ≡ some i
      → (after_server db sdk server fresh u (db.server_of u w)).0 ≡ ok v
      → HasServer servers v
  related-HasServer server fresh u v i w n h =
      after_server-HasServer server fresh u v i (db.server_of u w) n
        (λ s k. laws.related u w s i k n) h

  after_reload-HasServer :
      (server : Server) (v : User) (r : Result User × W)
      → ((x : User) → r.0 ≡ ok x → is_some x.server_id ≡ true)
      → (after_reload db sdk server r).0 ≡ ok v
      → HasServer servers v
  after_reload-HasServer server v (err e, w) law h = absurd (ground arith)
  after_reload-HasServer server v (ok x, w) law h = elim (Option-cases x.server_id) [
    | inl n ↦ absurd (ground (arith, law x refl, n))
    | inr (i, n) ↦ related-HasServer server false x v i w n h
  ]

  after_update-HasServer :
      (u v : User) (r : Result ℕ × W)
      → (r.0 ≡ ok 0 → (x : User) → (db.reload u r.1).0 ≡ ok x → is_some x.server_id ≡ true)
      → (after_update db sdk chosen u r).0 ≡ ok v
      → HasServer servers v
  after_update-HasServer u v (err e, w) law h = absurd (ground arith)
  after_update-HasServer u v (ok zero, w) law h =
      after_reload-HasServer chosen.server v (db.reload u w) (law refl) h
  after_update-HasServer u v (ok (suc n), w) law h =
      related-HasServer chosen.server true (record u { server_id = some chosen.id }) v chosen.id w
        refl h

  assign-HasServer :
      (u v : User) (w : W)
      → u.server_id ≡ none
      → (assign_sdk_server_to_user db sdk chosen u w).0 ≡ ok v
      → HasServer servers v
  unfolding assign_sdk_server_to_user
  assign-HasServer u v w n h =
      after_update-HasServer u v (db.set_server chosen.id u.id w)
        (λ k x. laws.reloaded chosen.id u x w k) (ground (arith, n, eqb_ℤ_iff chosen.id (pos 0)))

  assign_if_none-HasServer :
      (r : Result User × W) (v : User)
      → ((x : User) (i : ℤ)
          → r.0 ≡ ok x
          → x.server_id ≡ some i
          → (x.server ≡ servers i) × (is_some (servers i) ≡ true))
      → (assign_if_none db sdk chosen r).0 ≡ ok v
      → HasServer servers v
  assign_if_none-HasServer (err e, w) v law h = absurd (ground arith)
  assign_if_none-HasServer (ok u, w) v law h = elim (Option-cases u.server_id) [
    | inl n ↦ assign-HasServer u v w n (ground (arith, n))
    | inr (i, n) ↦
        let same : u ≡ v = ground (arith, n) in
        let (joined, listed) = law u i refl n in
        elim (Option-cases (servers i)) [
          | inl absent ↦ absurd (ground (arith, absent, listed))
          | inr (s, row) ↦ rw (← same) (i, s, n, joined ∙ row, row)
        ]
  ]

  -- The user that the transaction of a login returns, found or made, has an SDK server: its row
  -- names one of the table of servers, and that one comes with the user. This holds where the least
  -- loaded server has an id, of a database whose answers obey the laws.
  pub local_user-HasServer :
      (u v : User) (w : W)
      → u.server_id ≡ none
      → (local_user db sdk chosen u w).0 ≡ ok v
      → HasServer servers v
  unfolding local_user
  local_user-HasServer u v w n h =
      let (x, given) =
        in_tx_rounds-ok db (λ y. assign_if_none db sdk chosen (get_or_create_local_user db u y)) v 1
          w h in
      assign_if_none-HasServer (get_or_create_local_user db u x) v
        (λ y i k. get_or_create-joined u y x i n k) given
