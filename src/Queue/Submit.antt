-- ===== src/Queue/Submit.antt =====
-- queue.py: `submit_requests`. The profile registry, the topology and the check of cache references
-- are other parts of the program, and come as an argument of type `Routing`.
pub mod Filling
pub mod Keeps
pub mod Appends
pub mod Rows
pub mod Insert
pub mod Existing
pub mod Cpu
use ds4_on_spark.Prelude.{
  nat-Eq, ℕ, ◌+◌, String, Bool, true, false, not, ◌&&◌, ◌||◌, Option, none, some, List, [], ◌∷◌,
  ◌++◌, ◌==◌, string-Eq, all, any, length, map, leb, same, if◌then◌else◌, Result, ok, value_error,
  ◌>>=◌, ◌>>◌, raise_if,
}
use ds4_on_spark.Prelude.Int.{ℤ, pos, int-Eq, at_least_zero}
use ds4_on_spark.Json
use ds4_on_spark.Json.{Json, dict, text}
use ds4_on_spark.Sql.{select, order_by}
use ds4_on_spark.Queue.Tables.{State, Kind, Request, Batch, BatchState, Db, non_empty, or_empty}
use ds4_on_spark.Queue.Batches.{event, refresh_batch}
use ds4_on_spark.Queue.ResultError.{Env, true_field}
use ds4_on_spark.Queue.Kv.{ceil_div}
use ds4_on_spark.Queue.Tokens.{safe_int, sub_dict}
use ds4_on_spark.Queue.Policy.{validated_priority, request_priority}
use ds4_on_spark.Queue.Text.{before}
use ds4_on_spark.Queue.Submit.Rows.{
  Incoming, Routing, Assignment, Load, add_load, binds, model_row, model_payload, or_zero,
}
use ds4_on_spark.Queue.Submit.Insert.{insert_batch, submit_row}
use ds4_on_spark.Queue.Submit.Existing.{existing_submission}

unfoldable pub loaded : Option Assignment → Load → Load
unfolding add_load
loaded none load = load
loaded (some a) load = if a.node_id == "" then load else add_load a.node_id load

-- The loop over the requests of a batch.
unfoldable pub submit_models :
    Env
    → Routing
    → (batch_id : String) (priority : Option ℤ) (now : ℕ) → List Incoming
    → Load
    → Db
    → Result Db
unfolding submit_row model_row request_priority loaded
submit_models env routing batch_id priority now [] load db = ok db
submit_models env routing batch_id priority now (req ∷ reqs) load db = do
  routing.check_input req.input
  profile_id ← routing.resolve req
  prio ← request_priority req.priority req.immediate priority
  assignment ← routing.assign profile_id req.immediate load
  let bound = binds routing assignment
  let row = model_row env req batch_id profile_id (or_zero prio) bound now
  db1 ← submit_row row (model_payload row) db
  submit_models env routing batch_id priority now reqs (loaded bound load) db1

-- The transaction of a new batch; a raise leaves the database as it was.
unfoldable pub submit_batch :
    Env
    → Routing
    → (batch_id : String) → List Incoming
    → (priority : Option ℤ) (now : ℕ) → Db
    → Result Db
unfolding insert_batch submit_models refresh_batch
submit_batch env routing batch_id reqs priority now db = do
  db1 ← insert_batch batch_id db
  db2 ← submit_models env routing batch_id priority now reqs [] db1
  ok (refresh_batch batch_id db2)

-- `batch_id` is the given one, or the one that the call drew.
unfoldable pub submit_requests :
    Env
    → Routing
    → (batch_id : String) → List Incoming
    → (priority : Option ℤ) (now : ℕ) → Db
    → Result Db
unfolding existing_submission submit_batch
submit_requests env routing batch_id reqs priority now db = do
  raise_if (length reqs == 0) "cannot submit an empty request set"
  there ← existing_submission env batch_id reqs priority db
  if there then ok db else submit_batch env routing batch_id reqs priority now db
