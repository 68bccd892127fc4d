-- ===== src/Queue/Submit/Rows.antt =====
-- queue.py: the row that `submit_requests` inserts for a request, with `_kv_need`.
use ds4_on_spark.Prelude.{
  nat-Eq, ℕ, ◌+◌, String, Bool, true, false, ◌||◌, Option, none, some, List, [], ◌∷◌, ◌==◌,
  string-Eq, length, if◌then◌else◌, Result,
}
use ds4_on_spark.Prelude.Int.{ℤ, pos, int-Eq, at_least_zero}
use ds4_on_spark.Json
use ds4_on_spark.Json.{Json, dict, text}
use ds4_on_spark.Queue.Tables.{State, Kind, Request, non_empty}
use ds4_on_spark.Queue.ResultError.{Env, request_json_hash, true_field}
use ds4_on_spark.Queue.Kv.{ceil_div}
use ds4_on_spark.Queue.Tokens.{safe_int, sub_dict}

-- The fields of an InferenceRequest that the queue reads.
pub record Incoming : Type 0 where
  pub request_id : String
  pub immediate : Bool
  pub priority : Option ℤ
  pub input : Json
  pub raw : Json

-- The fields of a SparkAssignment; `is_group` says that its reason is "resident_profile_group".
pub record Assignment : Type 0 where
  pub node_id : String
  pub node_ids : List String
  pub service_id : Option String
  pub compute_domain : Option String
  pub is_group : Bool

-- `current_load` counts what this call has put on each node.
abbrev pub Load : Type 0
Load = List (String × ℕ)

-- `registry.resolve`, `topology.assign_profile` (none without a topology), the flag
-- `routing_policy.bind_on_submit`, and `ensure_cache_refs_resolved`.
pub record Routing : Type 0 where
  pub resolve : Incoming → Result String
  pub assign : (profile_id : String) (immediate : Bool) → Load → Result (Option Assignment)
  pub bind_on_submit : Bool
  pub check_input : Json → Result (Unit {0})

unfoldable pub add_load : String → Load → Load
add_load node [] = (node, 1) ∷ []
add_load node ((n, c) ∷ l) = if n == node then (n, c + 1) ∷ l else (n, c) ∷ add_load node l

-- The first of four fields that counts as true.
unfoldable pub kv_key_of : Env → (input meta : Json) → Option Json
kv_key_of env input meta = elim (true_field env input "kv_cache_key") [
  | some k ↦ some k
  | none ↦ elim (true_field env meta "kv_cache_key") [
    | some k ↦ some k
    | none ↦ elim (true_field env input "shared_prefix_hash") [
      | some k ↦ some k
      | none ↦ true_field env input "skeleton_hash"
    ]
  ]
]

unfoldable pub kv_need : Env → Incoming → Option String × ℕ
unfolding kv_key_of
kv_need env req =
    let meta = sub_dict req.raw "metadata" in
    let key : Option String = elim (kv_key_of env req.input meta) [
      | none ↦ none
      | some k ↦ some (env.str_of k)
    ] in
    let bytes : Option Json = elim (Json.get req.input "kv_bytes_estimate") [
      | some b ↦ some b
      | none ↦ Json.get meta "kv_bytes_estimate"
    ] in
    (key, at_least_zero (safe_int env bytes))

-- Whether the row is bound at submission.
abbrev pub binds : Routing → Option Assignment → Option Assignment
binds routing none = none
binds routing (some a) =
    if routing.bind_on_submit || (elim a.service_id [ none ↦ false | some _ ↦ true ]) || a.is_group
    then some a
    else none

-- `assignment.node_ids or (assignment.node_id,)`
abbrev pub nodes_of : Assignment → List String
nodes_of a = if length a.node_ids == 0 then a.node_id ∷ [] else a.node_ids

abbrev pub shard_count : Option Assignment → ℕ
shard_count none = 0
shard_count (some a) = elim (non_empty a.service_id) [ none ↦ 0 | some _ ↦ length (nodes_of a) ]

-- The inserted row, with the columns that the statement leaves to their defaults.
unfoldable pub model_row :
    Env
    → Incoming
    → (batch_id profile_id : String) (priority : ℤ) → Option Assignment
    → (now : ℕ) → Request
unfolding kv_need
model_row env req batch_id profile_id priority bound now =
    let (kv_key, kv_bytes) = kv_need env req in
    let shards = shard_count bound in
    record {
      request_id = req.request_id;
      batch_id = batch_id;
      request_kind = Kind.model;
      service_name = none;
      state = State.queued;
      priority = priority;
      immediate = req.immediate;
      selected_profile_id = profile_id;
      selected_node_id = elim bound [ none ↦ none | some a ↦ some a.node_id ];
      selected_service_id = elim bound [ none ↦ none | some a ↦ a.service_id ];
      selected_node_ids = elim bound [ none ↦ none | some a ↦ some (nodes_of a) ];
      selected_compute_domain = elim bound [ none ↦ none | some a ↦ a.compute_domain ];
      compute_lease_id = none;
      request_json = some req.raw;
      request_json_hash = some (request_json_hash env (env.dumps req.raw));
      result_json = none;
      error = none;
      cancel_requested = false;
      kv_key = kv_key;
      kv_bytes = kv_bytes;
      kv_shard_count = shards;
      kv_shard_bytes = if shards == 0 then 0 else ceil_div kv_bytes shards;
      created_at = now;
      updated_at = now;
      ready_at = none;
      started_at = none;
      completed_at = none;
      lease_id = none;
      leased_by = none;
      lease_expires_at = none;
      heartbeat_at = none;
      attempt_count = 0;
    }

abbrev pub model_payload : Request → Json
model_payload row = dict (
    ("batch_id", Json.str row.batch_id)
    ∷ ("priority", Json.num row.priority)
    ∷ (
      "node_binding",
      Json.str (elim (non_empty row.selected_node_id) [ none ↦ "lease" | some _ ↦ "bound" ]),
    )
    ∷ ("selected_node_id", text row.selected_node_id)
    ∷ ("selected_service_id", text row.selected_service_id)
    ∷ ("selected_compute_domain", text row.selected_compute_domain)
    ∷ [])

-- A request's priority is never None: only `validated_priority(None)` is.
abbrev pub or_zero : Option ℤ → ℤ
or_zero none = pos 0
or_zero (some n) = n
