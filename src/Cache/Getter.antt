-- ===== src/Cache/Getter.antt =====
-- The getter's attempts.
use odysee_api.Base.{
  ℕ, zero, suc, ◌+◌, ◌≤◌, ◌≡◌, ◌≢◌, ◌⊎◌, inl, inr, true, false, Option, none, some, arith, refl,
  pos, [], subst, Bool-cases, Option-cases,
}
use odysee_api.Errors.{Result, ok, Exit, returned, panicked}
use odysee_api.Rpc.{Response}
use odysee_api.Caller.{Session}
use odysee_api.Caller.Endpoint.{AllAre, randomize_endpoint-none}
use odysee_api.Query.{Query}
use odysee_api.Cache.{
  Object, response_object, object_of, is_final, getter_rounds, getter, randomize_session, Digests,
  Store, get_cache_key, query_request, not_found, preflight_cache_hook, retrieve,
}

-- A state with the replies so far counted, and the last of them.
pub record Replies (S : Type 0) : Type 0 where
  pub state : S
  pub sent : ℕ
  pub last : Option (Result Response)

-- The value that the getter holds after a reply, and before the first.
abbrev pub held : Option (Result Response) → Result Object
held none = ok (response_object none)
held (some r) = object_of r

abbrev pub IsFinal : Option (Result Response) → Type 0
IsFinal none = ⊥
IsFinal (some r) = is_final r ≡ true

module _ {S : Type 0} (send : S → Result Response × S) (randomize : S → Option S) where
  abbrev pub counting_send : Replies S → Result Response × Replies S
  counting_send s =
      let (r, v) = send s.state in (r, record { state = v; sent = suc s.sent; last = some r })

  abbrev carry : Replies S → Option S → Option (Replies S)
  carry s none = none
  carry s (some v) = some (record s { state = v })

  abbrev pub counting_randomize : Replies S → Option (Replies S)
  counting_randomize s = carry s (randomize s.state)

  -- What `left` rounds did: no more requests than rounds; and unless the change of the endpoint
  -- panicked, the last reply is returned, which is final unless every round was used.
  pub record Tried (left : ℕ) (s : Replies S) (out : Exit Object × Replies S) : Type 0 where
    pub bounded : out.1.sent ≤ s.sent + left
    pub result :
        (out.0 ≡ panicked)
        ⊎ ((out.0 ≡ returned (held out.1.last))
            × (IsFinal out.1.last ⊎ (out.1.sent ≡ s.sent + left)))

  Tried-suc :
      (left : ℕ) (s v : Replies S) (out : Exit Object × Replies S)
      → v.sent ≡ suc s.sent
      → Tried left v out
      → Tried (suc left) s out
  Tried-suc left s v out e t = record {
    bounded = omega (arith, t.bounded);
    result = elim t.result [
      | inl p ↦ inl p
      | inr (o, inl f) ↦ inr (o, inl f)
      | inr (o, inr f) ↦ inr (o, inr (omega arith))
    ];
  }

  abbrev now : Replies S → Replies S
  now s = (counting_send s).1

  rounds-Tried :
      (left : ℕ) (s : Replies S)
      → Tried left s (getter_rounds counting_send counting_randomize left (held s.last) s)
  unfolding getter_rounds
  rounds-Tried zero s = record { bounded = omega arith; result = inr (refl, inr (omega arith)) }
  rounds-Tried (suc left) s = elim (Bool-cases (is_final (send s.state).0)) [
    | inl final ↦
        rw (final, getter_rounds) (record { bounded = omega arith; result = inr (refl, inl final) })
    | inr retry ↦ elim (Option-cases (randomize (send s.state).1)) [
      | inl none_left ↦
          rw (retry, none_left, getter_rounds) (record { bounded = omega arith; result = inl refl })
      | inr (v, moved) ↦
          rw (retry, moved, getter_rounds)
            (Tried-suc left s (record (now s) { state = v }) _ refl
              (rounds-Tried left (record (now s) { state = v })))
    ]
  ]

-- The getter of the cache hook, on a state that counts its requests, sends at most the configured
-- number of them. Unless the change of the endpoint panics it returns the last reply, and that is
-- a success or a user's mistake unless all the requests were sent. (Before any reply it holds a
-- nil response.)
pub getter_lem :
    {S : Type 0} (send : S → Result Response × S) (randomize : S → Option S) (retries : ℕ)
    (s : Replies S)
    → s.last ≡ none
    → let out =
        getter (counting_send send randomize) (counting_randomize send randomize) retries s in
      (out.1.sent ≤ s.sent + retries)
      × ((out.0 ≡ panicked)
          ⊎ ((out.0 ≡ returned (held out.1.last))
              × (IsFinal out.1.last ⊎ (out.1.sent ≡ s.sent + retries))))
unfolding getter
getter_lem send randomize retries s fresh =
    let t = rounds-Tried send randomize retries s in
    let t' =
      subst
        (λ o. Tried send randomize retries s (
          getter_rounds (counting_send send randomize) (counting_randomize send randomize) retries
            (held o) s))
        fresh t in
    (t'.bounded, t'.result)

-- On a cache miss for an anonymous caller whose every backup endpoint is the one in use, a first
-- attempt that fails is not retried: the hook panics.
pub single_endpoint_panics :
    {F W : Type 0} (digests : Digests) (store : Store (Session F W)) (retries : ℕ) (int_n : ℕ → ℕ)
    (send : Query → Session F W → Result Response × Session F W) (s s' : Session F W)
    (reply : Result Response)
    → store.get (get_cache_key digests (query_request s.query)) s ≡ (not_found, s)
    → send s.query s ≡ (reply, s')
    → is_final reply ≡ false
    → s'.caller.user_id ≡ pos 0
    → s'.caller.backup_endpoints ≢ []
    → AllAre s'.caller.endpoint s'.caller.backup_endpoints
    → preflight_cache_hook digests (some store) (suc retries) int_n send s ≡ (panicked, s')
unfolding preflight_cache_hook retrieve getter getter_rounds randomize_session
single_endpoint_panics digests store retries int_n send s s' reply miss sent retry anonymous
      some_backup all =
    ground (arith, randomize_endpoint-none int_n s'.caller anonymous some_backup all)
