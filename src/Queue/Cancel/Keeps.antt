-- ===== src/Queue/Cancel/Keeps.antt =====
-- `cancel` keeps the queue's invariant.
use ds4_on_spark.Prelude.{
  if-either, ℕ, ◌≡◌, refl, String, Bool, true, false, Option, List, [], ◌∷◌, inl, inr, Bool-cases,
  All, arith, eq_iff, ◌==◌, string-Eq, ok, >>=-eq-ok, subst,
}
use ds4_on_spark.Json.{Json}
use ds4_on_spark.Queue.Tables.{State, State-Eq, state_eq_iff, Request, Db, terminal}
use ds4_on_spark.Queue.Batches.{listed, update_requests}
use ds4_on_spark.Queue.Rows.{Fixes, Fixes-select, IsKeyed, IsKeyed-select, IsKeyed-order_by}
use ds4_on_spark.Queue.Valid.{IsValid}
use ds4_on_spark.Queue.Frame.{
  SameTables, SameTables-refl, SameTables-trans, SameTables-event, SameTables-write_notice,
  SameTables-delete_request_kv, SameTables-release, Keeps,
}
use ds4_on_spark.Queue.Loops.{
  ChangesOne, LoopInv, LoopInv-start, LoopInv-tail, LoopInv-step, Keeps-end, batch_ids-listed,
}
use ds4_on_spark.Queue.Cancel.{
  Cancelled, one_target, cancelled_row, force_cancelled_row, asked_row, cancel_with, cancel_row,
  cancel_rows, Target, one_request, whole_batch, targets, cancel_target, cancel, batch_ids,
}
use ds4_on_spark.Queue.Policy.{job_batch_id}
use ds4_on_spark.Sql.{select}
use ds4_on_spark.Sql.Laws.{All-order_by}

pub cancel_with-SameTables :
    (change : Request → Request) (result payload : Json) (row : Request) (db : Db)
    → SameTables
        (cancel_with change result payload row db)
        (update_requests (λ r. r.request_id == row.request_id) change db)
unfolding cancel_with
cancel_with-SameTables change result payload row db =
    SameTables-trans (SameTables-write_notice _ _ _ _) (
      SameTables-trans (SameTables-event _ _ _ _ _) (
        SameTables-trans (SameTables-release row.compute_lease_id _)
          (SameTables-delete_request_kv row.request_id _)))

module _ (reason : String) (now : ℕ) (row : Request) (db : Db) where
  by_id : (r : Request) → (r.request_id == row.request_id) ≡ true → r.request_id ≡ row.request_id
  by_id r e = (eq_iff r.request_id row.request_id).0 e

  -- A running row, by force.
  force-ChangesOne :
      (result payload : Json)
      → row.state ≡ State.running
      → ChangesOne row db
          (cancel_with (force_cancelled_row result reason now) result payload row db)
  force-ChangesOne result payload runs = record {
    test = λ r. r.request_id == row.request_id;
    change = force_cancelled_row result reason now;
    only = by_id;
    same = cancel_with-SameTables (force_cancelled_row result reason now) result payload row db;
    keep = λ r. unfold force_cancelled_row in refl;
    moves =
        unfold force_cancelled_row in
        record {
          same_id = refl;
          same_batch = refl;
          same_profile = refl;
          same_payload = refl;
          attempts = omega arith;
          final = λ done. cc (runs, done);
        };
    sound = λ v. unfold force_cancelled_row in ground arith;
  }

  -- A row that waits.
  plain-ChangesOne :
      (result payload : Json)
      → (row.state == State.running) ≡ false
      → terminal row.state ≡ false
      → ChangesOne row db (cancel_with (cancelled_row result reason now) result payload row db)
  plain-ChangesOne result payload waits live = record {
    test = λ r. r.request_id == row.request_id;
    change = cancelled_row result reason now;
    only = by_id;
    same = cancel_with-SameTables (cancelled_row result reason now) result payload row db;
    keep = λ r. unfold cancelled_row in refl;
    moves =
        unfold cancelled_row in
        record {
          same_id = refl;
          same_batch = refl;
          same_profile = refl;
          same_payload = refl;
          attempts = omega arith;
          final = λ done. cc (live, done);
        };
    sound = λ v. unfold cancelled_row in ground arith;
  }

  asked-ChangesOne :
      row.state ≡ State.running
      → ChangesOne row db (update_requests (λ r. r.request_id == row.request_id) (asked_row now) db)
  asked-ChangesOne runs = record {
    test = λ r. r.request_id == row.request_id;
    change = asked_row now;
    only = by_id;
    same = SameTables-refl _;
    keep = λ r. unfold asked_row in refl;
    moves =
        unfold asked_row in
        record {
          same_id = refl;
          same_batch = refl;
          same_profile = refl;
          same_payload = refl;
          attempts = omega arith;
          final = λ done. cc (runs, done);
        };
    sound = λ v. unfold asked_row in ground arith;
  }

module _ (reason : String) (force : Bool) (now : ℕ) (bs : List String) (start : Db) where
  cancel_row-LoopInv :
      (row : Request) (rows : List Request) (db : Db)
      → listed bs row.batch_id ≡ true
      → LoopInv bs (row ∷ rows) start db
      → LoopInv bs rows start (cancel_row reason force now row db)
  unfolding cancel_row
  cancel_row-LoopInv row rows db inside inv = elim (Bool-cases (terminal row.state)) [
    | inl done ↦ rw (done, cancel_row) (LoopInv-tail inv)
    | inr live ↦
        rw (live, cancel_row)
          (elim (Bool-cases (row.state == State.running)) [
            | inr waits ↦
                rw waits
                  (LoopInv-step inside (plain-ChangesOne reason now row db _ _ waits live) inv)
            | inl e ↦
                let runs : row.state ≡ State.running = (state_eq_iff row.state State.running).0 e in
                rw e (elim (Bool-cases force) [
                  | inl f ↦
                      rw f (LoopInv-step inside (force-ChangesOne reason now row db _ _ runs) inv)
                  | inr f ↦ rw f (LoopInv-step inside (asked-ChangesOne reason now row db runs) inv)
                ])
          ])
  ]

  cancel_rows-LoopInv :
      (rows : List Request) (db : Db)
      → All (λ r. listed bs r.batch_id ≡ true) rows
      → LoopInv bs rows start db
      → LoopInv bs [] start (cancel_rows reason force now rows db)
  unfolding cancel_rows
  cancel_rows-LoopInv [] db inside inv = inv
  cancel_rows-LoopInv (row ∷ rows) db inside inv =
      cancel_rows-LoopInv rows (cancel_row reason force now row db) inside.1
        (cancel_row-LoopInv row rows db inside.0 inv)

-- The rows of a target are the table's, each once.
pub targets-rows :
    (target : Target) (rs : List Request)
    → IsKeyed rs
    → IsKeyed (targets target rs) × All (Fixes rs) (targets target rs)
unfolding targets
targets-rows (one_request rid) rs h =
    if-either (λ (l : List Request). IsKeyed l × All (Fixes rs) l) (rid == "") []
      (select (λ r. r.request_id == rid) rs) (λ _. (tt, tt))
      (λ _. (
        IsKeyed-select (λ r. r.request_id == rid) rs h,
        Fixes-select (λ r. r.request_id == rid) rs h,
      ))
targets-rows (whole_batch bid) rs h = (
  IsKeyed-order_by _ _ (IsKeyed-select (λ r. r.batch_id == bid) rs h),
  All-order_by (Fixes rs) _ _ (Fixes-select (λ r. r.batch_id == bid) rs h),
)

cancel_target-Keeps :
    (target : Target) (reason : String) (force : Bool) (now : ℕ) (db : Db)
    → IsValid db
    → Keeps db (cancel_target target reason force now db).1
unfolding cancel_target
cancel_target-Keeps target reason force now db v =
    let rows = targets target db.requests in
    let (keyed, fixed) = targets-rows target db.requests v.keyed in
    Keeps-end (
      cancel_rows-LoopInv reason force now (batch_ids rows) db rows db (batch_ids-listed rows)
        (LoopInv-start (batch_ids rows) rows db v keyed fixed))

-- From a valid database, a call of `cancel` that does not raise leaves the tables valid; every row keeps its place, id, batch, profile and
-- payload, its attempt count never falls, and a row that is final is left as it is.
pub cancel-Keeps :
    (request_id batch_id job_id : Option String) (reason : String) (force : Bool) (now : ℕ)
    (db : Db) (answer : Cancelled) (db' : Db)
    → IsValid db
    → cancel request_id batch_id job_id reason force now db ≡ ok (answer, db')
    → Keeps db db'
unfolding cancel
cancel-Keeps request_id batch_id job_id reason force now db answer db' v h =
    let (bid, named, rest) = >>=-eq-ok (job_batch_id batch_id job_id) _ h in
    let (target, one, last) = >>=-eq-ok (one_target request_id bid) _ rest in
    let same : (cancel_target target reason force now db).1 ≡ db' = cc last in
    subst (Keeps db) same (cancel_target-Keeps target reason force now db v)
