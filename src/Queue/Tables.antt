-- ===== src/Queue/Tables.antt =====
-- queue.py: the tables of queue.sqlite3 that the modelled methods read and write, as records.
-- A JSON column holds the value whose text the code stores; a clock reading is a whole number of
-- ticks. `Batch.updated_at` and `events.created_at`, which take a later reading of the clock and
-- which no modelled method reads, are left out.
use ds4_on_spark.Prelude.{
  ℕ, String, Bool, true, false, Option, none, some, List, [], ◌==◌, string-Eq, if◌then◌else◌, ◌≡◌,
  ◌↔◌, Eq, arith,
}
use ds4_on_spark.Prelude.Int.{ℤ}
use ds4_on_spark.Json.{Json}

pub data State : Type 0 where
  queued prefilling ready running completed failed cancelled : State

abbrev pub state_eq : State → State → Bool
state_eq queued queued = true
state_eq prefilling prefilling = true
state_eq ready ready = true
state_eq running running = true
state_eq completed completed = true
state_eq failed failed = true
state_eq cancelled cancelled = true
state_eq _ _ = false

pub state_eq_iff : (a b : State) → (state_eq a b ≡ true) ↔ (a ≡ b)
state_eq_iff a b = ground arith

instance abbrev pub State-Eq : Eq State
State-Eq = record { beq = state_eq; beq_iff = state_eq_iff }

abbrev pub state_text : State → String
state_text queued = "queued"
state_text prefilling = "prefilling"
state_text ready = "ready"
state_text running = "running"
state_text completed = "completed"
state_text failed = "failed"
state_text cancelled = "cancelled"

-- `state in TERMINAL_STATES`
abbrev pub terminal : State → Bool
terminal completed = true
terminal failed = true
terminal cancelled = true
terminal _ = false

pub data Kind : Type 0 where
  model cpu : Kind

-- A row of `requests`. `request_json` is none where the stored text is not JSON.
pub record Request : Type 0 where
  pub request_id : String
  pub batch_id : String
  pub request_kind : Kind
  pub service_name : Option String
  pub state : State
  pub priority : ℤ
  pub immediate : Bool
  pub selected_profile_id : String
  pub selected_node_id : Option String
  pub selected_service_id : Option String
  pub selected_node_ids : Option (List String)
  pub selected_compute_domain : Option String
  pub compute_lease_id : Option String
  pub request_json : Option Json
  pub request_json_hash : Option String
  pub result_json : Option Json
  pub error : Option String
  pub cancel_requested : Bool
  pub kv_key : Option String
  pub kv_bytes : ℕ
  pub kv_shard_count : ℕ
  pub kv_shard_bytes : ℕ
  pub created_at : ℕ
  pub updated_at : ℕ
  pub ready_at : Option ℕ
  pub started_at : Option ℕ
  pub completed_at : Option ℕ
  pub lease_id : Option String
  pub leased_by : Option String
  pub lease_expires_at : Option ℕ
  pub heartbeat_at : Option ℕ
  pub attempt_count : ℕ

pub data BatchState : Type 0 where
  queued prefilling ready running completed cancelled : BatchState
  completed_with_failures completed_with_cancelled : BatchState

pub record Batch : Type 0 where
  pub batch_id : String
  pub state : BatchState
  pub request_count : ℕ
  pub queued_count : ℕ
  pub prefilling_count : ℕ
  pub ready_count : ℕ
  pub running_count : ℕ
  pub completed_count : ℕ
  pub failed_count : ℕ
  pub cancelled_count : ℕ

pub data KvState : Type 0 where
  ready idle : KvState

abbrev pub is_idle : KvState → Bool
is_idle ready = false
is_idle idle = true

pub record KvEntry : Type 0 where
  pub node_id : String
  pub kv_key : String
  pub request_id : String
  pub bytes : ℕ
  pub state : KvState
  pub last_used_at : ℕ
  pub created_at : ℕ

-- The layer bounds of a shard are none where the column is NULL.
pub record KvShardEntry : Type 0 where
  pub service_id : String
  pub node_id : String
  pub kv_key : String
  pub request_id : String
  pub stage_index : ℕ
  pub stage_count : ℕ
  pub layer_start : Option ℕ
  pub layer_end : Option ℕ
  pub bytes : ℕ
  pub state : KvState
  pub last_used_at : ℕ
  pub created_at : ℕ

pub record ComputeLease : Type 0 where
  pub compute_domain : String
  pub compute_lease_id : String
  pub service_id : Option String
  pub leased_by : String
  pub lease_expires_at : ℕ
  pub heartbeat_at : ℕ
  pub request_count : ℕ
  pub created_at : ℕ

-- A row of `events`; `event_id` is its place in the table.
pub record Event : Type 0 where
  pub request_id : String
  pub event_type : String
  pub state : State
  pub payload : Json

-- A file written under `notices/`.
pub record Notice : Type 0 where
  pub request_id : String
  pub state : State
  pub result : Json

-- `draws` counts the calls of uuid.uuid4 so far.
pub record Db : Type 0 where
  pub requests : List Request
  pub batches : List Batch
  pub kv_entries : List KvEntry
  pub kv_shard_entries : List KvShardEntry
  pub compute_leases : List ComputeLease
  pub events : List Event
  pub notices : List Notice
  pub draws : ℕ

abbrev pub empty : Db
empty = record {
  requests = [];
  batches = [];
  kv_entries = [];
  kv_shard_entries = [];
  compute_leases = [];
  events = [];
  notices = [];
  draws = 0;
}

-- `str(row[c] or "")` and `if row[c]`: an empty text counts as absent.
abbrev pub non_empty : Option String → Option String
non_empty none = none
non_empty (some s) = if s == "" then none else some s

abbrev pub or_empty : Option String → String
or_empty none = ""
or_empty (some s) = s
