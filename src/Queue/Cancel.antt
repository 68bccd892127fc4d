-- ===== src/Queue/Cancel.antt =====
-- queue.py: `cancel`, by which an operator stops a request or a whole batch.
pub mod Keeps
pub mod Applied
pub mod Stops
use ds4_on_spark.Prelude.{
  Result, ok, value_error, ◌>>=◌, none, some, Option, ℕ, String, Bool, true, not, ◌&&◌, ◌||◌, none,
  some, List, [], ◌∷◌, ◌++◌, ◌==◌, string-Eq, nat-Eq, length, any, if◌then◌else◌,
}
use ds4_on_spark.Json.{Json, dict}
use ds4_on_spark.Sql.{select, order_by}
use ds4_on_spark.Queue.Tables.{State, Request, Db, State-Eq, terminal}
use ds4_on_spark.Queue.Batches.{
  add_id, update_requests, event, write_notice, refresh_batches, delete_request_kv,
}
use ds4_on_spark.Queue.Leases.{release_unused_compute_lease}
use ds4_on_spark.Queue.Finish.{without_lease}
use ds4_on_spark.Queue.Policy.{job_batch_id}
use ds4_on_spark.Queue.Text.{before}

-- What the loop collects, beside the database that it changes.
pub record Cancelled : Type 0 where
  pub cancelled : List String
  pub cancel_requested : List String
  pub skipped : List State

abbrev pub cancel_result : String → String → List (String × Json) → Json
cancel_result rid reason more = dict (
    ("format", Json.str "ds4-inference-cancelled-v1")
    ∷ ("request_id", Json.str rid)
    ∷ ("status", Json.str "cancelled")
    ∷ ("reason", Json.str reason)
    ∷ more)

abbrev pub cancel_payload : Request → String → List (String × Json) → Json
cancel_payload row reason more =
    dict (("batch_id", Json.str row.batch_id) ∷ ("reason", Json.str reason) ∷ more)

-- state='cancelled', result_json=?, error=?, completed_at=?, updated_at=?
unfoldable pub cancelled_row : Json → String → ℕ → Request → Request
cancelled_row result reason now r = record r {
  state = State.cancelled;
  result_json = some result;
  error = some reason;
  completed_at = some now;
  updated_at = now;
}

-- The forced variant gives up the leases too.
unfoldable pub force_cancelled_row : Json → String → ℕ → Request → Request
unfolding cancelled_row
force_cancelled_row result reason now r =
    record (without_lease (cancelled_row result reason now r)) { compute_lease_id = none }

unfoldable pub asked_row : ℕ → Request → Request
asked_row now r = record r { cancel_requested = true; updated_at = now }

-- What both variants do around the update.
unfoldable pub cancel_with : (Request → Request) → (result payload : Json) → Request → Db → Db
unfolding delete_request_kv release_unused_compute_lease event write_notice
cancel_with change result payload row db =
    let rid = row.request_id in
    let db1 = update_requests (λ r. r.request_id == rid) change db in
    let db2 = release_unused_compute_lease row.compute_lease_id (delete_request_kv rid db1) in
    write_notice rid State.cancelled result (event rid "cancelled" State.cancelled payload db2)

-- What one pass of the loop does to the database.
unfoldable pub cancel_row : (reason : String) (force : Bool) (now : ℕ) → Request → Db → Db
unfolding force_cancelled_row cancelled_row asked_row cancel_with
cancel_row reason force now row db =
    let forced = ("forced", Json.bool true) ∷ [] in
    let hard = cancel_result row.request_id reason forced in
    let plain = cancel_result row.request_id reason [] in
    if terminal row.state
    then db
    else if row.state == State.running
    then (if force
        then cancel_with (force_cancelled_row hard reason now) hard
            (cancel_payload row reason forced) row db
        else update_requests (λ r. r.request_id == row.request_id) (asked_row now) db)
    else cancel_with (cancelled_row plain reason now) plain (cancel_payload row reason []) row db

-- Which of the three answers it adds to.
unfoldable pub cancel_note : Bool → Request → Cancelled → Cancelled
cancel_note force row c =
    if terminal row.state
    then record c { skipped = c.skipped ++ row.state ∷ [] }
    else if row.state == State.running && not force
    then record c { cancel_requested = c.cancel_requested ++ row.request_id ∷ [] }
    else record c { cancelled = c.cancelled ++ row.request_id ∷ [] }

unfoldable pub cancel_rows : (reason : String) (force : Bool) (now : ℕ) → List Request → Db → Db
unfolding cancel_row
cancel_rows reason force now [] db = db
cancel_rows reason force now (row ∷ rows) db =
    cancel_rows reason force now rows (cancel_row reason force now row db)

unfoldable pub cancel_notes : Bool → List Request → Cancelled → Cancelled
unfolding cancel_note
cancel_notes force [] c = c
cancel_notes force (row ∷ rows) c = cancel_notes force rows (cancel_note force row c)

-- `{str(row["batch_id"]) for row in rows}`: each once.
unfoldable pub batch_ids : List Request → List String
batch_ids [] = []
batch_ids (r ∷ rs) = add_id r.batch_id (batch_ids rs)

-- `state` of the answer.
pub data CancelState : Type 0 where
  cancelled partial unchanged : CancelState

unfoldable pub cancel_state : Cancelled → CancelState
cancel_state c =
    let some_cancelled = not (length c.cancelled == 0) in
    let some_asked = not (length c.cancel_requested == 0) in
    if some_cancelled && length c.skipped == 0 && not some_asked
    then CancelState.cancelled
    else if some_cancelled || some_asked
    then CancelState.partial
    else CancelState.unchanged

-- The rows of one request, or of one batch by request_id. An empty request_id makes the query one
-- for a batch_id of NULL, which no row has.
pub data Target : Type 0 where
  one_request : String → Target
  whole_batch : String → Target

unfoldable pub targets : Target → List Request → List Request
targets (one_request rid) rs = if rid == "" then [] else select (λ r. r.request_id == rid) rs
targets (whole_batch bid) rs =
    order_by (λ a b. before a.request_id b.request_id) (select (λ r. r.batch_id == bid) rs)

abbrev pub one_target : Option String → Option String → Result Target
one_target (some rid) none = ok (one_request rid)
one_target none (some bid) = ok (whole_batch bid)
one_target _ _ = value_error "exactly one of request_id, batch_id, or job_id is required"

-- The transaction of `cancel`, once its arguments name one target.
unfoldable pub cancel_target :
    Target → (reason : String) (force : Bool) (now : ℕ) → Db → Cancelled × Db
unfolding targets cancel_rows cancel_notes batch_ids
cancel_target target reason force now db =
    let rows = targets target db.requests in
    (
      cancel_notes force rows (record { cancelled = []; cancel_requested = []; skipped = [] }),
      refresh_batches (batch_ids rows) (cancel_rows reason force now rows db),
    )

-- The guards on the arguments. An empty request_id is given, and selects no row.
unfoldable pub cancel :
    (request_id batch_id job_id : Option String) (reason : String) (force : Bool) (now : ℕ)
    → Db
    → Result (Cancelled × Db)
unfolding cancel_target
cancel request_id batch_id job_id reason force now db = do
  bid ← job_batch_id batch_id job_id
  target ← one_target request_id bid
  ok (cancel_target target reason force now db)
