-- ===== src/Wallet/Transactions.antt =====
-- The transactions of inTx (app/wallet/wallet.go), counted.
use odysee_api.Base.{
  ℕ, zero, suc, ◌+◌, ◌≤◌, ◌≡◌, Bool, true, false, Option, none, some, arith, ◌==◌,
}
use odysee_api.Errors.{Error, Result, ok, err}
use odysee_api.Wallet.{
  UserDb, in_tx, in_tx_rounds, after_begin, after_failure, after_work, pg_code,
  aborted_transaction_violation,
}

pub record Counts : Type 0 where
  pub begun : ℕ
  pub committed_count : ℕ
  pub rolled_back : ℕ
  pub runs : ℕ

abbrev pub no_counts : Counts
no_counts = record { begun = 0; committed_count = 0; rolled_back = 0; runs = 0 }

abbrev pub count_begin : {W : Type 0} → Counts → Option Error × W → Option Error × (W × Counts)
count_begin c (none, w) = (none, (w, record c { begun = suc c.begun }))
count_begin c (some e, w) = (some e, (w, c))

module _ {W : Type 0} (db : UserDb W) where
  -- The database, with its transactions counted: those that begin, and their ends.
  abbrev pub counted : UserDb (W × Counts)
  counted = record {
    begin = λ v. count_begin v.1 (db.begin v.0);
    commit = λ v.
        let r = db.commit v.0 in
        (r.0, (r.1, record v.1 { committed_count = suc v.1.committed_count }));
    rollback = λ v. (db.rollback v.0, record v.1 { rolled_back = suc v.1.rolled_back });
    find = λ by v. let r = db.find by v.0 in (r.0, (r.1, v.1));
    insert = λ u v. let r = db.insert u v.0 in (r.0, (r.1, v.1));
    set_server = λ s u v. let r = db.set_server s u v.0 in (r.0, (r.1, v.1));
    reload = λ u v. let r = db.reload u v.0 in (r.0, (r.1, v.1));
    server_of = λ u v. let r = db.server_of u v.0 in (r.0, (r.1, v.1));
    update = λ u v. let r = db.update u v.0 in (r.0, (r.1, v.1));
    delete = λ u v. let r = db.delete u v.0 in (r.0, (r.1, v.1));
  }

abbrev pub counted_work : {A W : Type 0} → (W → Result A × W) → W × Counts → Result A × (W × Counts)
counted_work f v = let r = f v.0 in (r.0, (r.1, record v.1 { runs = suc v.1.runs }))

abbrev pub is_ok : {A : Type 0} → Result A → ℕ
is_ok (ok a) = 1
is_ok (err e) = 0

-- What is counted from `c` on, in at most `n` rounds.
abbrev IsBalanced : {A W : Type 0} → ℕ → Counts → Result A × (W × Counts) → Type 0
IsBalanced n c (r, (w, d)) =
    (d.begun + c.committed_count + c.rolled_back ≡ c.begun + d.committed_count + d.rolled_back)
    × (d.runs + c.begun ≡ c.runs + d.begun)
    × (d.begun ≤ c.begun + n)
    × (d.committed_count ≤ c.committed_count + 1)
    × (c.committed_count + is_ok r ≤ d.committed_count)

module _ {A W : Type 0} (db : UserDb W) (f : W → Result A × W) (n : ℕ)
    (retry : Error → W × Counts → Result A × (W × Counts))
    (h : (e : Error) (w : W) (c : Counts) → IsBalanced n c (retry e (w, c))) where
  after_failure-IsBalanced :
      (e : Error) (w : W) (c : Counts) (again : Bool)
      → IsBalanced (suc n) c (
          after_failure
            (counted db)
            (counted_work f)
            retry
            e
            (w, record c { begun = suc c.begun; runs = suc c.runs })
            again)
  after_failure-IsBalanced e w c false = ground arith
  after_failure-IsBalanced e w c true =
      let d : Counts = record c {
        begun = suc c.begun;
        runs = suc c.runs;
        rolled_back = suc c.rolled_back;
      } in
      let (p, q, t, u, x) = h e (db.rollback w) d in
      (omega (arith, p), omega (arith, q), omega (arith, t), omega (arith, u), omega (arith, x))

  -- A round from the end of its work on.
  after_work-IsBalanced :
      (r : Result A) (w : W) (c : Counts)
      → IsBalanced (suc n) c (
          after_work
            (counted db)
            (counted_work f)
            retry
            (r, (w, record c { begun = suc c.begun; runs = suc c.runs })))
  after_work-IsBalanced (ok a) w c = ground arith
  after_work-IsBalanced (err e) w c =
      after_failure-IsBalanced e w c (pg_code e == aborted_transaction_violation)

  after_begin-IsBalanced :
      (b : Option Error × W) (c : Counts)
      → IsBalanced (suc n) c (after_begin (counted db) (counted_work f) retry (count_begin c b))
  after_begin-IsBalanced (some e, w) c = ground arith
  after_begin-IsBalanced (none, w) c = after_work-IsBalanced (f w).0 (f w).1 c

rounds-IsBalanced :
    {A W : Type 0} (db : UserDb W) (f : W → Result A × W) (n : ℕ) (w : W) (c : Counts)
    → IsBalanced (suc n) c (in_tx_rounds (counted db) (counted_work f) n (w, c))
unfolding in_tx_rounds
rounds-IsBalanced db f zero w c =
    after_begin-IsBalanced db f 0 (λ e v. (err e, v)) (λ e v d. ground arith) (db.begin w) c
rounds-IsBalanced db f (suc n) w c =
    after_begin-IsBalanced db f (suc n) (λ e v. in_tx_rounds (counted db) (counted_work f) n v)
      (λ e v d. rounds-IsBalanced db f n v d) (db.begin w) c

-- inTx runs its function in at most two transactions, once in each; every transaction that was
-- begun is ended, by a commit or a rollback, and there is at most one commit, which there is where
-- inTx gives no error.
pub in_tx_balanced :
    {A W : Type 0} (db : UserDb W) (f : W → Result A × W) (w : W)
    → let out = in_tx (counted db) (counted_work f) (w, no_counts) in
      let c = out.1.1 in
      (c.begun ≡ c.committed_count + c.rolled_back)
      × (c.runs ≡ c.begun)
      × (c.begun ≤ 2)
      × (c.committed_count ≤ 1)
      × (is_ok out.0 ≤ c.committed_count)
in_tx_balanced db f w =
    let (p, q, t, u, x) = rounds-IsBalanced db f 1 w no_counts in
    (omega (arith, p), omega (arith, q), omega (arith, t), omega (arith, u), omega (arith, x))
