-- ===== src/Queue/Samples.antt =====
-- queue.py at concrete inputs: small queues, and what their calls compute to.
use ds4_on_spark.Prelude.{
  ne_of-==, String, In, ◌≡◌, refl, Bool, true, false, none, some, List, [], ◌∷◌, string-Eq, map,
  inl, Result, ok, value_error,
}
use ds4_on_spark.Prelude.Int.{pos}
use ds4_on_spark.Sql.{order_by}
use ds4_on_spark.Json.{Json}
use ds4_on_spark.Queue.Expire.{requeue_expired_leases}
use ds4_on_spark.Queue.Expire.Keeps.{requeue_expired_leases-Keeps}
use ds4_on_spark.Queue.Prepare.{Preparing, prepare_ready}
use ds4_on_spark.Queue.Leases.Domains.{OnePerDomain}
use ds4_on_spark.Queue.Kv.{reserve_kv}
use ds4_on_spark.Queue.Submit.{submit_requests}
use ds4_on_spark.Queue.Submit.Rows.{Incoming, Routing}
use ds4_on_spark.Queue.Tables.{
  ComputeLease, KvEntry, State, Kind, Request, BatchState, KvState, Db, empty,
}
use ds4_on_spark.Queue.Batches.{add_id, refreshed, batch_row, counts}
use ds4_on_spark.Queue.ResultError.{Env}
use ds4_on_spark.Queue.Valid.{IsValid}
use ds4_on_spark.Queue.Kv.{
  new_entry, victims_to_fit, idle_entries, drop_keys, put_entry, node_bytes, reserve_on_node,
}
use ds4_on_spark.Queue.Finish.Keeps.{finish_request-Keeps}
use ds4_on_spark.Queue.Cancel.{Cancelled, cancel}
use ds4_on_spark.Queue.Policy.{job_batch_id}
use ds4_on_spark.Queue.Ready.{Claiming}
use ds4_on_spark.Queue.Claim.{Claim, claim_of, claim_batch, claim_ready_batch}
use ds4_on_spark.Queue.Submit.Cpu.{CpuItem, submit_cpu_requests}
use ds4_on_spark.Queue.Submit.Keeps.{submit_cpu_requests-Keeps}
use ds4_on_spark.Queue.Finish.{finished, ignored, finish_request}

abbrev pub env : Env
env = record {
  quantum = 30;
  hex = λ n. "a";
  decimal = λ n. "1";
  str_of = λ j. "text";
  loads = λ s. none;
  is_zero = λ s. false;
  int_of_text = λ s. none;
  int_of_real = λ s. none;
  dumps = λ j. "{}";
  sha256 = λ s. s;
  request_parses = λ j. true;
  broken_text = λ rid. "";
  numbered = λ s n. s;
}

abbrev pub asked : Bool → Request
asked wanted = record {
  request_id = "r1";
  batch_id = "b1";
  request_kind = Kind.cpu;
  service_name = some "parse";
  state = State.running;
  priority = pos 0;
  immediate = false;
  selected_profile_id = "cpu:parse";
  selected_node_id = none;
  selected_service_id = none;
  selected_node_ids = none;
  selected_compute_domain = none;
  compute_lease_id = none;
  request_json = none;
  request_json_hash = none;
  result_json = none;
  error = none;
  cancel_requested = wanted;
  kv_key = none;
  kv_bytes = 0;
  kv_shard_count = 0;
  kv_shard_bytes = 0;
  created_at = 1;
  updated_at = 2;
  ready_at = some 1;
  started_at = some 2;
  completed_at = none;
  lease_id = some "w:run:a";
  leased_by = some "w";
  lease_expires_at = some 9;
  heartbeat_at = some 2;
  attempt_count = 1;
}

-- One request runs; its cancellation has been asked for or not.
abbrev pub running : Bool → Db
running wanted = record empty {
  requests = asked wanted ∷ [];
  batches =
      record {
        batch_id = "b1";
        state = BatchState.running;
        request_count = 1;
        queued_count = 0;
        prefilling_count = 0;
        ready_count = 0;
        running_count = 1;
        completed_count = 0;
        failed_count = 0;
        cancelled_count = 0;
      }
      ∷ [];
}

pub running-IsValid : (wanted : Bool) → IsValid (running wanted)
unfolding refreshed batch_row counts
running-IsValid wanted = record {
  keyed = (tt, tt);
  sound = (
    record {
      leased = refl;
      owned = refl;
      bounded = refl;
      beaten = refl;
      closed = refl;
      answered = refl;
      explained = λ e. cc e;
      timed = λ e. refl;
      unshared = λ e. refl;
    },
    tt,
  );
  counted = ((λ _. refl), tt);
}

abbrev pub db_of : Result (Bool × Db) → Db
db_of (ok (done, db)) = db
db_of (value_error e) = empty

abbrev pub after : Bool → Db
after wanted =
    db_of (finish_request "r1" "w:run:a" State.completed Json.null none 5 (running wanted))

pub answers :
    (wanted : Bool)
    → finish_request "r1" "w:run:a" State.completed Json.null none 5 (running wanted)
      ≡ ok (true, after wanted)
unfolding finish_request
answers true = refl
answers false = refl

pub after-IsValid : IsValid (after true)
after-IsValid =
    (finish_request-Keeps "r1" "w:run:a" State.completed Json.null none 5 (running true) true
      (after true) (running-IsValid true) (answers true)).valid

-- The row once it is done.
abbrev pub done : Request
done = finished State.cancelled (ignored Json.null) none 5 (asked true)

pub done-In : In done (after true).requests
unfolding finish_request
done-In = inl refl

abbrev pub items : List CpuItem
items =
    record { name = some "r2"; payload = Json.null }
    ∷ record { name = some "r3"; payload = Json.null }
    ∷ []

abbrev pub result_of : Result Db → Db
result_of (ok db) = db
result_of (value_error e) = empty

abbrev pub submitted : Db
submitted =
    result_of (submit_cpu_requests env "b2" "parse" "cpu:parse" none false none 1 items empty)

pub submits_two :
    submit_cpu_requests env "b2" "parse" "cpu:parse" none false none 1 items empty ≡ ok submitted
unfolding submit_cpu_requests
submits_two = refl

pub submitted-IsValid : IsValid submitted
submitted-IsValid =
    (submit_cpu_requests-Keeps env "b2" "parse" "cpu:parse" none false none 1 items empty submitted
      (record { keyed = tt; sound = tt; counted = tt }) submits_two).valid

abbrev pub claiming : Claiming
claiming = record {
  node_id = none;
  batch_id = none;
  limit = 2;
  leased_by = "w";
  lease_ttl = 10;
  batch_linger = 0;
  batch_limits = λ s. none;
  batch_token_limits = λ s. none;
  decode_token_reserves = λ s. none;
  compute_lease_id = none;
  selected_service_id = none;
  share_compute_domain = false;
  ready_shape_bucketing = false;
  ready_shape_lookahead = 1;
  min_ready_rows = 0;
  min_ready_timeout = 0;
  min_ready_large_token_threshold = 0;
}

-- The two claims, and the database after them.
abbrev pub claimed_two : List Claim × Db
claimed_two = claim_batch env claiming 4 submitted

pub claims_two : claim_ready_batch env claiming 4 submitted ≡ ok (claimed_two.0, claimed_two.1)
unfolding claim_ready_batch submit_cpu_requests add_id
claims_two = refl

pub running_two :
    map (λ (r : Request). r.state) claimed_two.1.requests ≡ State.running ∷ State.running ∷ []
unfolding claim_ready_batch submit_cpu_requests add_id
running_two = refl

abbrev pub pair_of : Result (Cancelled × Db) → Cancelled × Db
pair_of (ok both) = both
pair_of (value_error e) = (record { cancelled = []; cancel_requested = []; skipped = [] }, empty)

abbrev pub stopped : Cancelled × Db
stopped = pair_of (cancel (some "r1") none none "stop" true 6 (running false))

pub stops : cancel (some "r1") none none "stop" true 6 (running false) ≡ ok stopped
unfolding cancel job_batch_id
stops = refl

abbrev pub old_entry : KvEntry
old_entry = record {
  node_id = "n";
  kv_key = "old";
  request_id = "r0";
  bytes = 60;
  state = KvState.idle;
  last_used_at = 1;
  created_at = 1;
}

-- The idle entry makes room.
pub made_room :
    reserve_on_node "n" "new" "r1" 50 100 3 (old_entry ∷ [])
    ≡ (true, new_entry "n" "new" "r1" 50 3 ∷ [])
unfolding reserve_on_node victims_to_fit node_bytes idle_entries drop_keys put_entry order_by
made_room = refl

abbrev pub placed : Request
placed = record (asked false) {
  selected_compute_domain = some "gpu";
  selected_service_id = some "s";
}

abbrev split_claims : List Claim → Claim × List Claim
split_claims (c ∷ cs) = (c, cs)
split_claims [] = (claim_of (asked false) "" none, [])

-- The two claims.
abbrev pub taken : Claim × List Claim
taken = split_claims claimed_two.0

pub takes_two : claim_ready_batch env claiming 4 submitted ≡ ok (taken.0 ∷ taken.1, claimed_two.1)
unfolding claim_ready_batch submit_cpu_requests add_id
takes_two = refl

-- The worker has died, and its request waits again.
abbrev pub waiting : Db
waiting = requeue_expired_leases env 3 20 (running false)

pub waiting-IsValid : IsValid waiting
waiting-IsValid =
    (requeue_expired_leases-Keeps env 3 20 (running false) (running-IsValid false)).valid

abbrev pub preparing : Preparing
preparing = record {
  node_id = some "n";
  eligible_profile_ids = [];
  batch_id = none;
  limit = 4;
  leased_by = "p";
  max_node_depth = 0;
  kv_capacity_bytes = 100;
  kv_shard_layouts = λ s. none;
  selected_service_id = none;
  share_compute_domain = false;
}

pub prepares_one :
    map (λ (r : Request). r.state) (prepare_ready env preparing 21 waiting).1.requests
    ≡ State.ready ∷ []
unfolding prepare_ready requeue_expired_leases reserve_kv
prepares_one = refl

abbrev pub routing : Routing
routing = record {
  resolve = λ r. ok "small";
  assign = λ p i l. ok none;
  bind_on_submit = false;
  check_input = λ j. ok tt;
}

abbrev pub incoming : List Incoming
incoming =
    record {
      request_id = "r4";
      immediate = false;
      priority = none;
      input = Json.null;
      raw = Json.null;
    }
    ∷ []

abbrev pub grown : Db
grown = result_of (submit_requests env routing "b4" incoming none 30 (running false))

pub grows : submit_requests env routing "b4" incoming none 30 (running false) ≡ ok grown
unfolding submit_requests
grows = refl

abbrev compute_lease : (domain service_id : String) → ComputeLease
compute_lease domain service_id = record {
  compute_domain = domain;
  compute_lease_id = service_id;
  service_id = some service_id;
  leased_by = "w";
  lease_expires_at = 9;
  heartbeat_at = 1;
  request_count = 1;
  created_at = 1;
}

-- Two domains are under lease.
abbrev pub leased : Db
leased = record (running false) {
  compute_leases = compute_lease "gpu" "s" ∷ compute_lease "gpu2" "t" ∷ [];
}

pub leased-OnePerDomain : OnePerDomain leased.compute_leases
leased-OnePerDomain = ((ne_of-== "gpu2" "gpu" refl, tt), (tt, tt))
