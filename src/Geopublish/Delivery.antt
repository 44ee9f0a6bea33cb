-- ===== src/Geopublish/Delivery.antt =====
-- The results of tasks: which are written, and which tasks are tried again, and when.
use odysee_api.Base.{
  ℕ, ◌*◌, ◌^◌, String, ◌≡◌, ◌≢◌, refl, true, false, Option, none, some, [], ◌∷◌, ◌++◌, arith, ◌==◌,
  eq_iff, Bool-cases, ne_of_test, inl, inr, ◌⊎◌,
}
use odysee_api.Errors.{Error, err_upload, Result, ok, err, is}
use odysee_api.AsyncQuery.{TaskResult, done, skip_retry, task_panicked, task_failed}
use odysee_api.Geopublish.Table.{Task}
use odysee_api.Geopublish.Carriage.{
  Carrier, Bus, ProcessResult, Processed, processed, process_panicked, with_error, finish,
  on_processed, process, process_task, retry_delay,
}

-- How a task ends: over, with its result written once; to be tried again, with nothing written; or
-- by a panic. The result has the text of the error that `process` gave beside it.
abbrev pub Ends : {W : Type 0} → Carrier W → Task → Bus W → TaskResult × Bus W → Type 0
Ends carrier t before (end, after) =
    ((r : ProcessResult) × (e : Option Error) × (s : String) × ((process carrier t before.rest).0
        ≡ processed r e)
      × (carrier.marshal (with_error carrier e r) ≡ ok s)
      × (after.results ≡ before.results ++ (s ∷ []))
      × (((end ≡ done) × ((with_error carrier e r).error ≡ ""))
          ⊎ ((end ≡ skip_retry)
              × ((with_error carrier e r).error ≢ "")
              × ((with_error carrier e r).retry ≡ false))))
    ⊎ ((r : ProcessResult) × (e : Option Error) × (x : Error) × ((process carrier t before.rest).0
          ≡ processed r e)
        × (after.results ≡ before.results)
        × (end ≡ task_failed x)
        × ((with_error carrier e r).error ≢ "")
        × ((with_error carrier e r).retry ≡ true))
    ⊎ ((end ≡ task_panicked) × (after.results ≡ before.results))

module _ {W : Type 0} (carrier : Carrier W)
    (marshals : (r : ProcessResult) → (s : String) × (carrier.marshal r ≡ ok s)) (t : Task)
    (b : Bus W) where
  finish-Ends :
      (r : ProcessResult) (e : Option Error) (w : W) (s : String)
      → (process carrier t b.rest).0 ≡ processed r e
      → carrier.marshal (with_error carrier e r) ≡ ok s
      → Ends carrier t b
          (finish carrier none (with_error carrier e r) (record b { rest = w }) (ok s))
  finish-Ends r e w s h m = elim (Bool-cases ((with_error carrier e r).error == "")) [
    | inl good ↦
        rw good
          (inl (r, e, s, h, m, refl, inl (refl, (eq_iff (with_error carrier e r).error "").0 good)))
    | inr bad ↦ elim (Bool-cases (with_error carrier e r).retry) [
      | inl again ↦
          rw (bad, again)
            (inr (
              inl
                (r, e, _, h, refl, refl, ne_of_test (with_error carrier e r).error "" bad, again)))
      | inr over ↦
          rw (bad, over)
            (inl (
              r,
              e,
              s,
              h,
              m,
              refl,
              inr (refl, ne_of_test (with_error carrier e r).error "" bad, over),
            ))
    ]
  ]

  on_processed-Ends :
      (p : Processed × W)
      → (process carrier t b.rest).0 ≡ p.0
      → Ends carrier t b (on_processed carrier none b p)
  on_processed-Ends (process_panicked, w) h = inr (inr (refl, refl))
  on_processed-Ends (processed r e, w) h =
      let (s, m) = marshals (with_error carrier e r) in rw m (finish-Ends r e w s h m)

  -- Where results are marshaled and redis takes what it is given, a task of the right type ends in
  -- one of these ways: it is over and its result was written, once; it is tried again, its
  -- processing failed in a way to be tried again, and nothing was written; or it panicked.
  pub result_or_retry : Ends carrier t b (process_task carrier none "upload:process" (some t) b)
  unfolding process_task
  result_or_retry = on_processed-Ends (process carrier t b.rest) refl

module _ {W : Type 0} (carrier : Carrier W) (fault : Option Error)
    (h : (e : Error) → fault ≡ some e → is e err_upload ≡ false) (x : Error) where
  finish-plain :
      (r : ProcessResult) (b : Bus W) (m : Result String)
      → (finish carrier fault r b m).0 ≡ task_failed x
      → is x err_upload ≡ false
  unfolding is
  finish-plain r b (err e) k = cc
  finish-plain r b (ok s) k = on_fault fault h k
    where
      on_fault :
          (o : Option Error)
          → ((e : Error) → o ≡ some e → is e err_upload ≡ false)
          → (finish carrier o r b (ok s)).0 ≡ task_failed x
          → is x err_upload ≡ false
      on_fault none g c = ground arith
      on_fault (some e) g c = ground (arith, g e refl)

  failed-plain :
      (kind : String) (payload : Option Task) (b : Bus W)
      → (process_task carrier fault kind payload b).0 ≡ task_failed x
      → is x err_upload ≡ false
  unfolding process_task is
  failed-plain kind none b k = ground arith
  failed-plain kind (some t) b k = elim (Bool-cases (kind == "upload:process")) [
    | inl its ↦ on_run (process carrier t b.rest) (rw its at k)
    | inr strange ↦ ground arith
  ]
    where
      on_run :
          (p : Processed × W)
          → (on_processed carrier fault b p).0 ≡ task_failed x
          → is x err_upload ≡ false
      on_run (process_panicked, w) c = cc
      on_run (processed r e, w) c = finish-plain (with_error carrier e r) _ _ c

  -- A task that is tried again waits for ten seconds, whatever the number of the retry and whatever
  -- failed, blobs that were not taken included; if no error of redis is that of blobs.
  pub retried_in_ten_seconds :
      (kind : String) (payload : Option Task) (b : Bus W) (n : ℕ)
      → (process_task carrier fault kind payload b).0 ≡ task_failed x
      → retry_delay n x ≡ 10 * 10 ^ 9
  unfolding retry_delay
  retried_in_ten_seconds kind payload b n k = rw (failed-plain kind payload b k) refl
