-- ===== src/Wallet/Sessions.antt =====
-- What a token is worth.
use odysee_api.Base.{
  ℕ, ◌*◌, ◌≤◌, ◌<◌, String, ◌≡◌, true, Option, none, some, arith, ◌==◌, ◌⊎◌, any, lookup,
  lookup-insert_self, Option-cases, inl, inr, drop_prefix, ◌^◌,
}
use odysee_api.Errors.{Error, Result, ok, err, Result-cases}
use odysee_api.Wallet.{User, UserDb, WalletSdk, LbrynetServer}
use odysee_api.Wallet.Tokens.{
  UserInfo, RemoteUser, Login, token_ttl, ttl_unconfirmed, ttl_confirmed, get, token_prefix,
  check_authorization, authenticate,
}

-- A user stays in the token cache for at least fifteen minutes and less than thirty, and the answer
-- that there is none for at least fifteen seconds and less than thirty, with a random number in its
-- range.
pub token_ttl_bounds :
    (int63n : ℕ → ℕ) (u : User)
    → ((n : ℕ) → 0 < n → int63n n < n)
    → (ttl_confirmed ≤ token_ttl int63n (some u))
      × (token_ttl int63n (some u) < 2 * ttl_confirmed)
      × (ttl_unconfirmed ≤ token_ttl int63n none)
      × (token_ttl int63n none < 2 * ttl_unconfirmed)
unfolding token_ttl
token_ttl_bounds int63n u h =
    ground (arith, h (15 * 60 * 10 ^ 9) (omega arith), h (15 * 10 ^ 9) (omega arith))

-- A token whose lookup gave no error is looked up once: the same answer, that there is no user
-- included, is given again, whatever the lookup would give, and nothing changes. After an error
-- the cache is as before.
pub get_again :
    {W : Type 0} (token : String) (retriever later : W → Result (Option User) × W) (s : Login W)
    → ((u : Option User) × ((get token retriever s).0 ≡ ok u)
        × (get token later (get token retriever s).1 ≡ (ok u, (get token retriever s).1)))
      ⊎ ((e : Error) × ((get token retriever s).0 ≡ err e)
          × ((get token retriever s).1.cache ≡ s.cache))
unfolding get
get_again token retriever later s = elim (Option-cases (lookup token s.cache)) [
  | inr (u, hit) ↦ inl (u, ground (arith, hit), ground (arith, hit))
  | inl miss ↦ elim (Result-cases (retriever s.world).0) [
    | inl (u, found) ↦ inl (
      u,
      ground (arith, miss, found),
      ground (arith, miss, found, lookup-insert_self token u s.cache),
    )
    | inr (e, failing) ↦ inr (e, ground (arith, miss, failing), ground (arith, miss, failing))
  ]
]

-- A user is authenticated only by a token with the prefix "Bearer " that the verifier accepts and
-- whose audiences include the program's client id.
pub authenticate_checked :
    {W : Type 0} (db : UserDb W) (sdk : WalletSdk W) (chosen : LbrynetServer)
    (remote : String → String → W → Result RemoteUser × W) (verify : String → Result UserInfo)
    (client token ip : String) (w : W) (u : User)
    → (authenticate db sdk chosen remote verify client token ip w).0 ≡ ok u
    → (bearer : String) × (info : UserInfo) × (drop_prefix token_prefix token ≡ some bearer)
      × (verify bearer ≡ ok info)
      × (any (λ a. a == client) info.aud ≡ true)
unfolding authenticate check_authorization
authenticate_checked db sdk chosen remote verify client token ip w u h =
    elim (Option-cases (drop_prefix token_prefix token)) [
      | inl bare ↦ absurd (ground (arith, bare))
      | inr (bearer, prefixed) ↦ elim (Result-cases (verify bearer)) [
        | inr (e, refused) ↦ absurd (ground (arith, prefixed, refused))
        | inl (info, verified) ↦
            (bearer, info, prefixed, verified, ground (arith, prefixed, verified))
      ]
    ]
