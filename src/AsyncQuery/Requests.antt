-- ===== src/AsyncQuery/Requests.antt =====
-- Who may make and see queries over HTTP.
use odysee_api.Base.{
  ℕ, String, ◌≡◌, ◌≢◌, refl, Bool, true, false, ◌&&◌, Option, none, some, List, [], ◌∷◌, arith,
  ◌==◌, eq_iff, eqb_ℤ, any, ℤ, pos, suc, ◌⊎◌, inl, inr, Bool-cases,
}
use odysee_api.Errors.{Error, Result, ok, err, is, same_sentinel}
use odysee_api.Rpc.{Request}
use odysee_api.Query.{method_stream_create, method_stream_update}
use odysee_api.AsyncQuery.{Asynquery, Codec, Faults, World, newest, matches, get_query_record}
use odysee_api.AsyncQuery.Http.{Auth, get, write_header, fresh, create_query, is_method_allowed}

newest-none :
    (test strict : Asynquery → Bool) (rows : List Asynquery)
    → ((r : Asynquery) → test r ≡ true → strict r ≡ true)
    → any strict rows ≡ false
    → newest test rows ≡ none
unfolding newest
newest-none test strict [] f h = refl
newest-none test strict (r ∷ rows) f h = ground (arith, f r, newest-none test strict rows f)

-- Get answers a user with a positive id by 404 where no query of that user has the id, whoever
-- else's query has it.
pub foreign_not_found :
    (i : String) (n : ℕ) (rows : List Asynquery)
    → i ≢ ""
    → any (λ r. r.id == i && eqb_ℤ r.user_id (pos (suc n))) rows ≡ false
    → get none (some i) (ok (some (pos (suc n)))) rows ≡ some (write_header 404 fresh)
unfolding get get_query_record is same_sentinel
foreign_not_found i n rows ne h =
    rw
      (newest-none
        (matches
          (record { query_id = i; upload_id = ""; user_id = pos (suc n); ready_to_run = false }))
        _ rows (λ r k. ground (arith, eq_iff i "")) h)
      refl

-- CreateQuery leaves the queries, the queue and the SDK as they were, unless the request is
-- authenticated and decodes, and its method is one of the two that create or update a stream.
pub only_streams :
    {W : Type 0} (codec : Codec) (faults : Faults) (taken : Error) (now : ℕ) (send : Option Error)
    (auth : Auth) (body : Result (Option Request)) (w : World W)
    → ((create_query codec faults taken now send auth body w).1 ≡ w)
      ⊎ ((user : ℤ) × (req : Request) × (auth ≡ ok (some user))
          × (body ≡ ok (some req))
          × ((req.method ≡ method_stream_create) ⊎ (req.method ≡ method_stream_update)))
unfolding create_query
only_streams codec faults taken now send (err e) body w = inl refl
only_streams codec faults taken now send (ok user) (err e) w = inl refl
only_streams codec faults taken now send (ok user) (ok none) w = inl refl
only_streams codec faults taken now send (ok none) (ok (some req)) w = inl (ground arith)
only_streams codec faults taken now send (ok (some user)) (ok (some req)) w =
    elim (Bool-cases (is_method_allowed req.method)) [
      | inl allowed ↦ inr (
        user,
        req,
        refl,
        refl,
        ground
            (arith, eq_iff method_stream_create req.method, eq_iff method_stream_update req.method),
      )
      | inr forbidden ↦ inl (ground arith)
    ]
