-- ===== src/Queue/Batches.antt =====
-- queue.py: the bookkeeping that every method ends with, `_refresh_batch`, `_event`,
-- `_write_notice` and `_delete_request_kv`.
pub mod Final
use ds4_on_spark.Prelude.{
  any, ℕ, ◌+◌, String, Bool, ◌&&◌, List, [], ◌∷◌, ◌++◌, ◌==◌, string-Eq, count, ltb, if◌then◌else◌,
}
use ds4_on_spark.Prelude.{nat-Eq}
use ds4_on_spark.Json.{Json}
use ds4_on_spark.Sql.{update, delete}
use ds4_on_spark.Queue.Tables.{State, Request, Batch, BatchState, Db, State-Eq}

-- select state, count(*) … where batch_id=? group by state: `counts.get(state, 0)`
unfoldable pub counts : List Request → String → State → ℕ
counts rs batch_id state = count (λ r. r.batch_id == batch_id && r.state == state) rs

-- `sum(counts.values())`
unfoldable pub total_of : (State → ℕ) → ℕ
total_of c =
    c State.queued
    + c State.prefilling
    + c State.ready
    + c State.running
    + c State.completed
    + c State.failed
    + c State.cancelled

-- The conditional expression that names the batch's state. A count stands for its own test.
unfoldable pub batch_state : (State → ℕ) → BatchState
unfolding total_of
batch_state c =
    let total = total_of c in
    let terminal = c State.completed + c State.failed + c State.cancelled in
    if ltb 0 total && c State.completed == total
    then BatchState.completed
    else if ltb 0 total && c State.cancelled == total
    then BatchState.cancelled
    else if ltb 0 total && terminal == total && ltb 0 (c State.failed)
    then BatchState.completed_with_failures
    else if ltb 0 total && terminal == total
    then BatchState.completed_with_cancelled
    else if ltb 0 (c State.running)
    then BatchState.running
    else if ltb 0 (c State.ready)
    then BatchState.ready
    else if ltb 0 (c State.prefilling)
    then BatchState.prefilling
    else BatchState.queued

-- The columns that the `update batches` statement sets.
unfoldable pub batch_row : String → (State → ℕ) → Batch
unfolding batch_state
batch_row batch_id c = record {
  batch_id = batch_id;
  state = batch_state c;
  request_count = total_of c;
  queued_count = c State.queued;
  prefilling_count = c State.prefilling;
  ready_count = c State.ready;
  running_count = c State.running;
  completed_count = c State.completed;
  failed_count = c State.failed;
  cancelled_count = c State.cancelled;
}

unfoldable pub refreshed : List Request → Batch → Batch
refreshed rs b = batch_row b.batch_id (counts rs b.batch_id)

unfoldable pub refresh_batch : String → Db → Db
refresh_batch batch_id db = record db {
  batches = update (λ b. b.batch_id == batch_id) (refreshed db.requests) db.batches;
}

-- `for bid in batch_ids: self._refresh_batch(conn, bid)`
unfoldable pub refresh_batches : List String → Db → Db
unfolding refresh_batch
refresh_batches [] db = db
refresh_batches (b ∷ bs) db = refresh_batches bs (refresh_batch b db)

-- `a in ids`, and `ids.add(a)` on a set of batch ids.
abbrev pub listed : List String → String → Bool
listed ids a = any (λ b. a == b) ids

unfoldable pub add_id : String → List String → List String
add_id a ids = if listed ids a then ids else a ∷ ids

unfoldable pub event : String → String → State → Json → Db → Db
event request_id event_type state payload db = record db {
  events =
      db.events
      ++ record {
        request_id = request_id;
        event_type = event_type;
        state = state;
        payload = payload;
      }
        ∷ [];
}

unfoldable pub write_notice : String → State → Json → Db → Db
write_notice request_id state result db = record db {
  notices = db.notices ++ record { request_id = request_id; state = state; result = result } ∷ [];
}

unfoldable pub delete_request_kv : String → Db → Db
delete_request_kv request_id db = record db {
  kv_entries = delete (λ e. e.request_id == request_id) db.kv_entries;
  kv_shard_entries = delete (λ e. e.request_id == request_id) db.kv_shard_entries;
}

-- `update requests set … where …`
abbrev pub update_requests : (Request → Bool) → (Request → Request) → Db → Db
update_requests p f db = record db { requests = update p f db.requests }
