-- ===== src/Cache/Retrieval.antt =====
-- Retrieve over a store that keeps what it is given.
use odysee_api.Base.{
  String, ◌≡◌, inl, inr, Option, none, some, Dict, lookup, insert, lookup-insert,
  lookup-insert_self, arith, Option-cases,
}
use odysee_api.Errors.{ok, err, Exit, returned, panicked}
use odysee_api.Cache.{
  CacheRequest, CachedResponse, Digests, Store, Lookup, hit, not_found, Object, response_object,
  unknown_object, get_cache_key, keep_response, retrieve,
}

-- A store with nothing expired: it answers with what was last set, and reports no error.
pub record Memory (S : Type 0) : Type 0 where
  pub kept : Dict CachedResponse
  pub rest : S

abbrev found_in : Option CachedResponse → Lookup
found_in none = not_found
found_in (some r) = hit r

abbrev pub memory_store : {S : Type 0} → Store (Memory S)
memory_store = record {
  get = λ k m. (found_in (lookup k m.kept), m);
  set = λ k r ttl tags m. (none, record m { kept = insert k r m.kept });
}

-- No kept response is an RPC error.
abbrev pub ErrorFree : Dict CachedResponse → Type 0
ErrorFree kept = (k : String) (r : CachedResponse) → lookup k kept ≡ some r → r.error ≡ none

module _ {S : Type 0} (digests : Digests) where
  keep_response-ErrorFree :
      (req : CacheRequest) (out : Exit Object) (m : Memory S)
      → ErrorFree m.kept
      → ErrorFree (keep_response digests memory_store req out m).1.kept
  unfolding keep_response
  keep_response-ErrorFree req panicked m h = h
  keep_response-ErrorFree req (returned (err e)) m h = h
  keep_response-ErrorFree req (returned (ok unknown_object)) m h = h
  keep_response-ErrorFree req (returned (ok (response_object none))) m h = h
  keep_response-ErrorFree req (returned (ok (response_object (some r)))) m h = λ k c. ground (
    arith,
    h k c,
    lookup-insert (get_cache_key digests req) k (record { result = r.result; error = r.error })
        m.kept,
  )

  -- Over a store in memory Retrieve puts no response with an RPC error into it: if none was in it,
  -- and the getter adds none, none is in it afterwards.
  pub retrieve-ErrorFree :
      (req : CacheRequest) (get : Memory S → Exit Object × Memory S) (m : Memory S)
      → ((v : Memory S) → ErrorFree v.kept → ErrorFree (get v).1.kept)
      → ErrorFree m.kept
      → ErrorFree (retrieve digests memory_store req (some get) m).1.kept
  unfolding retrieve
  retrieve-ErrorFree req get m keeps h =
      elim (Option-cases (lookup (get_cache_key digests req) m.kept)) [
        | inl miss ↦ rw miss (keep_response-ErrorFree req (get m).0 (get m).1 (keeps m h))
        | inr (r, found) ↦ rw found h
      ]

  -- A response without an RPC error that came out of the getter is in the store.
  keep_response-lookup :
      (req : CacheRequest) (out : Exit Object) (m : Memory S) (c : CachedResponse)
      → (keep_response digests memory_store req out m).0 ≡ returned (ok (some c))
      → c.error ≡ none
      → lookup (get_cache_key digests req) (keep_response digests memory_store req out m).1.kept
        ≡ some c
  unfolding keep_response
  keep_response-lookup req panicked m c h e = cc
  keep_response-lookup req (returned (err x)) m c h e = cc
  keep_response-lookup req (returned (ok unknown_object)) m c h e = cc
  keep_response-lookup req (returned (ok (response_object none))) m c h e = cc
  keep_response-lookup req (returned (ok (response_object (some r)))) m c h e = ground (
    arith,
    lookup-insert_self (get_cache_key digests req) (record { result = r.result; error = r.error })
        m.kept,
  )

  retrieve-lookup :
      (req : CacheRequest) (get : Memory S → Exit Object × Memory S) (m : Memory S)
      (c : CachedResponse)
      → (retrieve digests memory_store req (some get) m).0 ≡ returned (ok (some c))
      → c.error ≡ none
      → lookup (get_cache_key digests req) (retrieve digests memory_store req (some get) m).1.kept
        ≡ some c
  unfolding retrieve
  retrieve-lookup req get m c h e =
      elim (Option-cases (lookup (get_cache_key digests req) m.kept)) [
        | inl miss ↦ rw miss (keep_response-lookup req (get m).0 (get m).1 c (rw miss at h) e)
        | inr (r, found) ↦ rw found (cc (rw found at h))
      ]

  -- Over a store in memory where nothing expires, a response without an RPC error that Retrieve
  -- returned is served to the next retrieval of the same request, whose getter is not called.
  pub retrieve_again :
      (req : CacheRequest) (get get' : Memory S → Exit Object × Memory S) (m : Memory S)
      (c : CachedResponse)
      → (retrieve digests memory_store req (some get) m).0 ≡ returned (ok (some c))
      → c.error ≡ none
      → let m' = (retrieve digests memory_store req (some get) m).1 in
        retrieve digests memory_store req (some get') m' ≡ (returned (ok (some c)), m')
  retrieve_again req get get' m c h e =
      stored (retrieve digests memory_store req (some get) m).1 (retrieve-lookup req get m c h e)
    where
      stored :
          (v : Memory S)
          → lookup (get_cache_key digests req) v.kept ≡ some c
          → retrieve digests memory_store req (some get') v ≡ (returned (ok (some c)), v)
      stored v found = unfold retrieve in rw found
