-- ===== src/AsyncQuery/Changes.antt =====
-- How the rows change: each operation leaves them, inserts one, or updates one.
use odysee_api.Base.{
  ℕ, String, ◌≡◌, ◌≢◌, refl, Bool, true, false, Option, none, some, List, ◌∷◌, arith, Bool-cases,
  Option-cases, inl, inr, any, ℤ,
}
use odysee_api.Base.Decimal.{append-decimal_ne}
use odysee_api.Errors.{Error, Result, ok, err, Result-cases}
use odysee_api.Rpc.{Request, Response}
use odysee_api.AsyncQuery.{
  Asynquery, Codec, Faults, QueryParams, newest, save, has_id, is_upload, new_row, insert_new,
  create_query_record, commit_tx, committed, with_body, commit_draft, create_for, commit_by_status,
  commit_found, call_upload_tx, Status, received, preparing, forwarded, failed, succeeded,
  UploadMeta, UploadDone, with_file, store_meta, merge_ready, merge_found, handle_merge_tx,
  finalize_query_record, stored_final, finalized, get_query_record, by_id, matches, found,
}
use odysee_api.AsyncQuery.Table.{HasDistinctIds, newest-id}

-- `updated` never takes readiness away.
pub data Change (rows : List Asynquery) : List Asynquery → Type 0 where
  unchanged : Change rows rows
  inserted : (a : Asynquery) → any (has_id a.id) rows ≡ false → a.id ≢ "" → Change rows (a ∷ rows)
  updated :
      (a b : Asynquery)
      → newest (has_id b.id) rows ≡ some a
      → (a.ready_to_run ≡ true → b.ready_to_run ≡ true)
      → Change rows (save b rows)

commit_tx-Change :
    (faults : Faults) (aq : Asynquery) (run : Bool) (after before : List Asynquery)
    → Change before after
    → Change before (commit_tx faults aq run after before).1
commit_tx-Change faults aq run after before c = elim (Option-cases faults.commit) [
  | inl fine ↦ rw fine c
  | inr (e, failing) ↦ rw failing unchanged
]

-- The rows that an insertion leaves, if it succeeds.
insert_new-Change :
    (fault : Option Error) (taken : Error) (a x : Asynquery) (rows after : List Asynquery)
    → a.id ≢ ""
    → insert_new fault taken a rows ≡ ok (x, after)
    → Change rows after
insert_new-Change (some e) taken a x rows after ne h = cc
insert_new-Change none taken a x rows after ne h = elim (Bool-cases (any (has_id a.id) rows)) [
  | inl used ↦ absurd (ground (arith, used))
  | inr fresh ↦
      (let e : (a ∷ rows) ≡ after = ground (arith, fresh) in rw (← e) (inserted a fresh ne))
]

pub create_query_record-Change :
    (codec : Codec) (faults : Faults) (taken : Error) (now : ℕ) (params : QueryParams)
    (req : Request) (rows after : List Asynquery) (a : Asynquery)
    → create_query_record codec faults taken now params req rows ≡ ok (a, after)
    → Change rows after
unfolding create_query_record
create_query_record-Change codec faults taken now params req rows after a h =
    elim (Result-cases (codec.marshal_request req)) [
      | inl (body, m) ↦
          insert_new-Change faults.insert taken (new_row codec now params body) a rows after
            (append-decimal_ne (codec.md5 body) now) (rw (create_query_record, m) at h)
      | inr (e, m) ↦ absurd (ground (arith, m))
    ]

create_for-Change :
    (codec : Codec) (faults : Faults) (taken : Error) (now : ℕ) (upload : String) (user : ℤ)
    (ready : Bool) (req : Request) (rows : List Asynquery)
    → Change rows (create_for codec faults taken now upload user ready req rows).1
create_for-Change codec faults taken now upload user ready req rows =
    let params : QueryParams = record {
      query_id = "";
      upload_id = upload;
      user_id = user;
      ready_to_run = ready;
    } in
    elim (Result-cases (create_query_record codec faults taken now params req rows)) [
      | inl ((a, after), made) ↦ rw made (
          commit_tx-Change faults a false after rows
            (create_query_record-Change codec faults taken now params req rows after a made))
      | inr (e, made) ↦ rw made unchanged
    ]

with_body-Change :
    (faults : Faults) (aq : Asynquery) (rows : List Asynquery) (body : Result String)
    → newest (has_id aq.id) rows ≡ some aq
    → Change rows (with_body faults aq rows body).1
with_body-Change faults aq rows (err e) n = unchanged
with_body-Change faults aq rows (ok body) n = elim (Option-cases faults.update) [
  | inl fine ↦ rw fine (
      commit_tx-Change faults (committed aq body) aq.file_ready _ rows
        (updated aq (committed aq body) n (λ r. refl)))
  | inr (e, failing) ↦ rw failing unchanged
]

commit_draft-Change :
    (codec : Codec) (faults : Faults) (req : Request) (aq : Asynquery) (rows : List Asynquery)
    (ready : Bool)
    → newest (has_id aq.id) rows ≡ some aq
    → Change rows (commit_draft codec faults req aq rows ready).1
commit_draft-Change codec faults req aq rows true n =
    commit_tx-Change faults aq false rows rows unchanged
commit_draft-Change codec faults req aq rows false n =
    with_body-Change faults aq rows (codec.marshal_request req) n

module _ (codec : Codec) (faults : Faults) (taken : Error) (now : ℕ) (user : ℤ) (upload : String)
    (req : Request) (rows : List Asynquery) where
  commit_by_status-Change :
      (aq : Asynquery) (s : Status)
      → newest (has_id aq.id) rows ≡ some aq
      → Change rows (commit_by_status codec faults taken now upload user req aq rows s).1
  unfolding commit_by_status
  commit_by_status-Change aq received n =
      commit_draft-Change codec faults req aq rows aq.ready_to_run n
  commit_by_status-Change aq failed n =
      create_for-Change codec faults taken now upload user true req rows
  commit_by_status-Change aq preparing n = commit_tx-Change faults aq false rows rows unchanged
  commit_by_status-Change aq forwarded n = commit_tx-Change faults aq false rows rows unchanged
  commit_by_status-Change aq succeeded n = commit_tx-Change faults aq false rows rows unchanged

  commit_found-Change :
      (defer_run : Bool) (o : Option Asynquery)
      → newest (is_upload upload user) rows ≡ o
      → HasDistinctIds rows
      → Change rows (commit_found codec faults taken now upload user defer_run req rows o).1
  unfolding commit_found
  commit_found-Change defer_run none n d =
      create_for-Change codec faults taken now upload user _ req rows
  commit_found-Change true (some aq) n d = commit_tx-Change faults aq false rows rows unchanged
  commit_found-Change false (some aq) n d =
      commit_by_status-Change aq aq.status (newest-id (is_upload upload user) aq rows d n)

  pub call_upload_tx-Change :
      (defer_run : Bool)
      → HasDistinctIds rows
      → Change rows (call_upload_tx codec faults taken now user upload defer_run req rows).1
  unfolding call_upload_tx create_query_record
  call_upload_tx-Change defer_run d = elim (Option-cases faults.begin) [
    | inr (e, failing) ↦ rw failing unchanged
    | inl begun ↦ elim (Option-cases faults.lock) [
      | inr (e, failing) ↦ rw (begun, failing) unchanged
      | inl locked ↦ elim (Option-cases faults.lookup) [
        | inr (e, failing) ↦ rw (begun, locked, failing) unchanged
        | inl looked ↦ rw (begun, locked, looked) (commit_found-Change defer_run _ refl d)
      ]
    ]
  ]

store_meta-Change :
    (faults : Faults) (aq : Asynquery) (rows : List Asynquery) (meta : Result String)
    → newest (has_id aq.id) rows ≡ some aq
    → Change rows (store_meta faults aq rows meta).1
store_meta-Change faults aq rows (err e) n = unchanged
store_meta-Change faults aq rows (ok meta) n = elim (Option-cases faults.update) [
  | inl fine ↦ rw fine (
      commit_tx-Change faults (with_file aq meta) false _ rows
        (updated aq (with_file aq meta) n (λ r. r)))
  | inr (e, failing) ↦ rw failing unchanged
]

merge_ready-Change :
    (codec : Codec) (faults : Faults) (meta : UploadMeta) (aq : Asynquery) (rows : List Asynquery)
    (ready : Bool)
    → newest (has_id aq.id) rows ≡ some aq
    → Change rows (merge_ready codec faults meta aq rows ready).1
unfolding merge_ready
merge_ready-Change codec faults meta aq rows true n =
    commit_tx-Change faults aq _ rows rows unchanged
merge_ready-Change codec faults meta aq rows false n =
    store_meta-Change faults aq rows (codec.marshal_meta meta) n

merge_found-Change :
    (codec : Codec) (faults : Faults) (meta : UploadMeta) (rows : List Asynquery)
    (test : Asynquery → Bool) (o : Option Asynquery)
    → newest test rows ≡ o
    → HasDistinctIds rows
    → Change rows (merge_found codec faults meta rows o).1
unfolding merge_found
merge_found-Change codec faults meta rows test none n d = unchanged
merge_found-Change codec faults meta rows test (some aq) n d =
    merge_ready-Change codec faults meta aq rows aq.ready_to_run (newest-id test aq rows d n)

pub handle_merge_tx-Change :
    (codec : Codec) (faults : Faults) (finished : UploadDone) (rows : List Asynquery)
    → HasDistinctIds rows
    → Change rows (handle_merge_tx codec faults finished rows).1
unfolding handle_merge_tx
handle_merge_tx-Change codec faults finished rows d = elim (Option-cases faults.begin) [
  | inr (e, failing) ↦ rw failing unchanged
  | inl begun ↦ elim (Option-cases faults.lookup) [
    | inr (e, failing) ↦ rw (begun, failing) unchanged
    | inl looked ↦
        rw (begun, looked) (merge_found-Change codec faults finished.meta rows _ _ refl d)
  ]
]

stored_final-Change :
    (fault : Option Error) (a : Asynquery) (s : Status) (e : String)
    (stored : Result (Option String)) (rows : List Asynquery)
    → newest (has_id a.id) rows ≡ some a
    → Change rows (stored_final fault a s e stored rows).1
stored_final-Change fault a s e (err x) rows n = unchanged
stored_final-Change (some x) a s e (ok stored) rows n = unchanged
stored_final-Change none a s e (ok stored) rows n = updated a (finalized a stored s e) n (λ r. r)

-- The row that is found under an id, or any row if the id is empty.
found-newest :
    (fault : Option Error) (o : Option Asynquery) (a : Asynquery)
    → found fault o ≡ ok a
    → o ≡ some a
found-newest fault o a h = ground arith

pub finalize_query_record-Change :
    (codec : Codec) (faults : Faults) (i : String) (response : Option Response) (e : String)
    (rows : List Asynquery)
    → HasDistinctIds rows
    → Change rows (finalize_query_record codec faults i response e rows).1
unfolding finalize_query_record get_query_record
finalize_query_record-Change codec faults i response e rows d =
    elim (Result-cases (found faults.final_lookup (newest (matches (by_id i)) rows))) [
      | inl (a, looked) ↦ rw looked (
          stored_final-Change faults.final_update a _ e (codec.marshal_response response) rows
            (newest-id (matches (by_id i)) a rows d (found-newest faults.final_lookup _ a looked)))
      | inr (x, looked) ↦ rw looked unchanged
    ]
