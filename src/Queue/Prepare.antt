-- ===== src/Queue/Prepare.antt =====
-- queue.py: `prepare_ready`, which binds queued requests to a node and reserves their KV memory.
pub mod Keeps
use ds4_on_spark.Prelude.{
  not, ℕ, ◌+◌, ◌-◌, min, String, Bool, ◌&&◌, Option, none, some, List, [], ◌∷◌, ◌==◌, string-Eq,
  leb, ltb, count, if◌then◌else◌,
}
use ds4_on_spark.Prelude.Int.{pos}
use ds4_on_spark.Json.{Json, dict, text}
use ds4_on_spark.Sql.{select}
use ds4_on_spark.Queue.Tables.{State, State-Eq, Request, Db, non_empty}
use ds4_on_spark.Queue.Batches.{add_id, update_requests, event, refresh_batches}
use ds4_on_spark.Queue.ResultError.{Env}
use ds4_on_spark.Queue.Leases.{lease_name}
use ds4_on_spark.Queue.Kv.{Layout, reserve_kv}
use ds4_on_spark.Queue.Ready.{queued_rows, node_depth}

-- The arguments.
pub record Preparing : Type 0 where
  pub node_id : Option String
  pub eligible_profile_ids : List String
  pub batch_id : Option String
  pub limit : ℕ
  pub leased_by : String
  pub max_node_depth : ℕ
  pub kv_capacity_bytes : ℕ
  pub kv_shard_layouts : String → Option Layout
  pub selected_service_id : Option String
  pub share_compute_domain : Bool

-- The limit, and the room on the node where there is a depth to keep.
unfoldable pub remaining : Preparing → List Request → ℕ
unfolding node_depth
remaining p rs = elim p.node_id [
  | none ↦ p.limit
  | some n ↦
      if ltb 0 p.max_node_depth then min p.limit (p.max_node_depth - node_depth rs n) else p.limit
]

abbrev or_text : Option String → Option String → Option String
or_text a b = elim (non_empty a) [ none ↦ non_empty b | some s ↦ some s ]

-- The node that the row is bound to.
abbrev pub bind_node : Preparing → Request → Option String
bind_node p row = or_text row.selected_node_id p.node_id

abbrev coalesce {ℓ} : {A : Type ℓ} → Option A → Option A → Option A
coalesce none b = b
coalesce (some a) b = some a

-- row["selected_node_ids_json"] or (json.dumps([bind_node_id]) if bind_node_id else None)
abbrev pub node_ids_of : Request → Option String → Option (List String)
node_ids_of row node = elim row.selected_node_ids [
  | some ids ↦ some ids
  | none ↦ elim node [ none ↦ none | some n ↦ some (n ∷ []) ]
]

-- The columns of a prepared row.
unfoldable pub prepared :
    (node : Option String) (node_ids : Option (List String)) (now : ℕ) → Request → Request
prepared node node_ids now r = record r {
  state = State.ready;
  selected_node_id = coalesce r.selected_node_id node;
  selected_node_ids = coalesce r.selected_node_ids node_ids;
  ready_at = some now;
  updated_at = now;
  lease_id = none;
  leased_by = none;
  lease_expires_at = none;
  heartbeat_at = none;
}

-- request_id=? and state='queued'
abbrev pub is_queued : String → Request → Bool
is_queued request_id r = r.request_id == request_id && r.state == State.queued

-- What follows a reservation that succeeded: the batch that was touched, and the database.
unfoldable pub make_ready : Env → Preparing → (now : ℕ) → Request → Db → Option String × Db
unfolding prepared lease_name event
make_ready env p now row db =
    let node = bind_node p row in
    let lease_id = lease_name p.leased_by "prefill" (env.hex db.draws) in
    let updated = count (is_queued row.request_id) db.requests in
    let db1 =
      update_requests (is_queued row.request_id) (prepared node (node_ids_of row node) now)
        (record db { draws = db.draws + 1 }) in
    let payload = dict (
      ("batch_id", Json.str row.batch_id)
      ∷ ("node_id", text node)
      ∷ ("service_id", text row.selected_service_id)
      ∷ ("lease_id", Json.str lease_id)
      ∷ []) in
    if leb updated 1 && leb 1 updated
    then (some row.batch_id, event row.request_id "prefilled" State.ready payload db1)
    else (none, db1)

-- One pass of the loop.
unfoldable pub prepare_row : Env → Preparing → (now : ℕ) → Request → Db → Option String × Db
unfolding reserve_kv make_ready event
prepare_row env p now row db =
    let node = bind_node p row in
    let (kept, db1) =
      reserve_kv row node p.kv_capacity_bytes now (p.kv_shard_layouts row.selected_profile_id) db in
    let payload = dict (
      ("batch_id", Json.str row.batch_id)
      ∷ ("node_id", text node)
      ∷ ("service_id", text row.selected_service_id)
      ∷ ("kv_capacity_bytes", Json.num (pos p.kv_capacity_bytes))
      ∷ []) in
    if kept
    then make_ready env p now row db1
    else (none, event row.request_id "kv_capacity_wait" State.queued payload db1)

-- `batch_ids.add(row["batch_id"])` with the passes behind it.
abbrev pub with_touched : Option String → ℕ × List String × Db → ℕ × List String × Db
with_touched none rest = rest
with_touched (some b) (made, batches, db) = (made + 1, add_id b batches, db)

-- How many rows were made ready, their batches (each once), and the database.
unfoldable pub prepare_rows : Env → Preparing → (now : ℕ) → List Request → Db → ℕ × List String × Db
unfolding prepare_row add_id
prepare_rows env p now [] db = (0, [], db)
prepare_rows env p now (row ∷ rows) db =
    let (touched, db1) = prepare_row env p now row db in
    with_touched touched (prepare_rows env p now rows db1)

unfoldable pub prepare_ready : Env → Preparing → (now : ℕ) → Db → ℕ × Db
unfolding remaining queued_rows prepare_rows refresh_batches
prepare_ready env p now db =
    let left = remaining p db.requests in
    let eligible = select (λ x. not (x == "")) p.eligible_profile_ids in
    let rows =
      queued_rows env p.node_id eligible p.batch_id p.selected_service_id p.share_compute_domain
        left now db in
    let (made, batches, db1) = prepare_rows env p now rows db in
    if leb left 0 then (0, db) else (made, refresh_batches batches db1)
