-- ===== src/Queue/Submit/Cpu.antt =====
-- queue.py: `submit_cpu_requests`.
use ds4_on_spark.Prelude.{
  nat-Eq, ℕ, ◌+◌, String, Bool, false, Option, none, some, List, [], ◌∷◌, ◌==◌, string-Eq, length,
  Result, ok, ◌>>=◌, ◌>>◌, raise_if,
}
use ds4_on_spark.Prelude.Int.{ℤ, int-Eq}
use ds4_on_spark.Json.{Json, dict}
use ds4_on_spark.Queue.Tables.{State, Kind, Request, Db}
use ds4_on_spark.Queue.Batches.{refresh_batch}
use ds4_on_spark.Queue.ResultError.{Env}
use ds4_on_spark.Queue.Policy.{validated_priority}
use ds4_on_spark.Queue.Submit.Rows.{or_zero}
use ds4_on_spark.Queue.Submit.Insert.{insert_batch, submit_row}

unfoldable pub cpu_row :
    (request_id batch_id service : String) (priority : ℤ) (immediate : Bool)
    → (node_id : Option String) (payload : Json) (profile_id : String) (now : ℕ) → Request
cpu_row request_id batch_id service priority immediate node_id payload profile_id now = record {
  request_id = request_id;
  batch_id = batch_id;
  request_kind = Kind.cpu;
  service_name = some service;
  state = State.ready;
  priority = priority;
  immediate = immediate;
  selected_profile_id = profile_id;
  selected_node_id = node_id;
  selected_service_id = none;
  selected_node_ids = none;
  selected_compute_domain = none;
  compute_lease_id = none;
  request_json = some payload;
  request_json_hash = none;
  result_json = none;
  error = none;
  cancel_requested = false;
  kv_key = none;
  kv_bytes = 0;
  kv_shard_count = 0;
  kv_shard_bytes = 0;
  created_at = now;
  updated_at = now;
  ready_at = some now;
  started_at = none;
  completed_at = none;
  lease_id = none;
  leased_by = none;
  lease_expires_at = none;
  heartbeat_at = none;
  attempt_count = 0;
}

-- An item of a CPU batch: its `custom_id` or `request_id` where one counts as true, and the payload
-- with the timeout already put in.
pub record CpuItem : Type 0 where
  pub name : Option String
  pub payload : Json

unfoldable pub submit_cpus :
    Env
    → (batch_id service profile_id : String) (priority : ℤ) (immediate : Bool)
    → (node_id : Option String) (now index : ℕ) → List CpuItem
    → Db
    → Result Db
unfolding submit_row cpu_row
submit_cpus env batch_id service profile_id priority immediate node_id now index [] db = ok db
submit_cpus env batch_id service profile_id priority immediate node_id now index (item ∷ items) db =
    do
      let rid : String = elim item.name [ some n ↦ n | none ↦ env.numbered batch_id index ]
      let row = cpu_row rid batch_id service priority immediate node_id item.payload profile_id now
      let payload = dict (
          ("batch_id", Json.str batch_id)
          ∷ ("priority", Json.num priority)
          ∷ ("service", Json.str service)
          ∷ [])
      db1 ← submit_row row payload db
      submit_cpus env batch_id service profile_id priority immediate node_id now (index + 1) items
          db1

-- `profile_id` is f"cpu:{service}".
unfoldable pub submit_cpu_requests :
    Env
    → (batch_id service profile_id : String) (priority : Option ℤ) (immediate : Bool)
    → (node_id : Option String) (now : ℕ) → List CpuItem
    → Db
    → Result Db
unfolding validated_priority insert_batch submit_cpus refresh_batch
submit_cpu_requests env batch_id service profile_id priority immediate node_id now items db = do
  prio ← validated_priority priority (some immediate)
  raise_if (length items == 0) "cannot submit an empty CPU request set"
  db1 ← insert_batch batch_id db
  db2 ← submit_cpus env batch_id service profile_id (or_zero prio) immediate node_id now 0 items db1
  ok (refresh_batch batch_id db2)
