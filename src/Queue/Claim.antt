-- ===== src/Queue/Claim.antt =====
-- queue.py: `claim_ready_batch`, by which a worker takes a batch of ready requests, and `_claim`.
pub mod Scope
pub mod Keeps
use ds4_on_spark.Prelude.{
  ℕ, ◌+◌, String, Bool, true, false, ◌&&◌, Option, none, some, List, [], ◌∷◌, ◌==◌, string-Eq, leb,
  ltb, length, count, all, if◌then◌else◌, Result, ok, value_error, ok_injective, ◌≡◌, inl, inr,
  Bool-cases,
}
use ds4_on_spark.Json.{Json, dict, text}
use ds4_on_spark.Sql.{delete}
use ds4_on_spark.Queue.Tables.{State, State-Eq, Kind, model, cpu, Request, Db, non_empty}
use ds4_on_spark.Queue.Batches.{add_id, update_requests, event, refresh_batches}
use ds4_on_spark.Queue.ResultError.{Env}
use ds4_on_spark.Queue.Leases.{
  Acquired, unneeded, denied, held, acquire_compute_lease, extend_compute_lease, lease_name,
}
use ds4_on_spark.Queue.Kv.{row_node_ids}
use ds4_on_spark.Queue.Tokens.{limit_ready_rows_by_token_budget}
use ds4_on_spark.Queue.Ready.{
  Claiming, ready_rows, service_batch_limit, service_or_default, newest, has_recent_queued_peer,
  should_wait_for_ready_floor,
}

-- A QueueClaim, less the parsed `request`, which `parses` is about.
pub record Claim : Type 0 where
  pub request_id : String
  pub batch_id : String
  pub request_kind : Kind
  pub selected_profile_id : String
  pub selected_node_id : Option String
  pub lease_id : String
  pub attempt_count : ℕ
  pub service_name : Option String
  pub payload : Option Json
  pub selected_service_id : Option String
  pub selected_node_ids : List String
  pub selected_compute_domain : Option String
  pub compute_lease_id : Option String

unfoldable pub claim_of : Request → (lease_id : String) → (compute_lease_id : Option String) → Claim
unfolding row_node_ids
claim_of row lease_id compute_lease_id = record {
  request_id = row.request_id;
  batch_id = row.batch_id;
  request_kind = row.request_kind;
  selected_profile_id = row.selected_profile_id;
  selected_node_id = non_empty row.selected_node_id;
  lease_id = lease_id;
  attempt_count = row.attempt_count + 1;
  service_name = non_empty row.service_name;
  payload = row.request_json;
  selected_service_id = non_empty row.selected_service_id;
  selected_node_ids = row_node_ids row row.selected_node_id;
  selected_compute_domain = non_empty row.selected_compute_domain;
  compute_lease_id = compute_lease_id;
}

-- The columns of a claimed row.
unfoldable pub started :
    (lease_id leased_by : String) (compute_lease_id : Option String) (ttl now : ℕ)
    → Request
    → Request
started lease_id leased_by compute_lease_id ttl now r = record r {
  state = State.running;
  lease_id = some lease_id;
  compute_lease_id = compute_lease_id;
  leased_by = some leased_by;
  lease_expires_at = some (now + ttl);
  heartbeat_at = some now;
  started_at = some now;
  updated_at = now;
  attempt_count = r.attempt_count + 1;
}

-- request_id=? and state='ready'
abbrev pub is_ready : String → Request → Bool
is_ready request_id r = r.request_id == request_id && r.state == State.ready

abbrev started_payload : Request → String → Option String → Json
started_payload row lease_id compute_lease_id = dict (
    ("batch_id", Json.str row.batch_id)
    ∷ ("lease_id", Json.str lease_id)
    ∷ ("node_id", text row.selected_node_id)
    ∷ ("service_id", text row.selected_service_id)
    ∷ ("compute_domain", text row.selected_compute_domain)
    ∷ ("compute_lease_id", text compute_lease_id)
    ∷ [])

-- One pass of the loop: the database, and the claim if the row was still ready.
unfoldable pub claim_row :
    Env
    → (leased_by : String) (compute_lease_id : Option String) (ttl now : ℕ) → Request
    → Db
    → Option Claim × Db
unfolding lease_name claim_of started event
claim_row env leased_by compute_lease_id ttl now row db =
    let lease_id = lease_name leased_by "run" (env.hex db.draws) in
    let updated = count (is_ready row.request_id) db.requests in
    let db1 =
      update_requests (is_ready row.request_id)
        (started lease_id leased_by compute_lease_id ttl now)
        (record db { draws = db.draws + 1 }) in
    let payload = started_payload row lease_id compute_lease_id in
    if leb updated 1 && leb 1 updated
    then (
      some (claim_of row lease_id compute_lease_id),
      event row.request_id "started" State.running payload db1,
    )
    else (none, db1)

-- `if cur.rowcount == 1:` with the claims of the passes behind it.
abbrev pub with_claim : Option Claim → List Claim × Db → List Claim × Db
with_claim none rest = rest
with_claim (some c) (claims, db) = (c ∷ claims, db)

unfoldable pub claim_rows :
    Env
    → (leased_by : String) (compute_lease_id : Option String) (ttl now : ℕ) → List Request
    → Db
    → List Claim × Db
unfolding claim_row
claim_rows env leased_by compute_lease_id ttl now [] db = ([], db)
claim_rows env leased_by compute_lease_id ttl now (row ∷ rows) db =
    let (claim, db1) = claim_row env leased_by compute_lease_id ttl now row db in
    with_claim claim (claim_rows env leased_by compute_lease_id ttl now rows db1)

-- `batch_ids` of the claimed rows: each once.
unfoldable pub claimed_batches : List Claim → List String
claimed_batches [] = []
claimed_batches (c ∷ cs) = add_id c.batch_id (claimed_batches cs)

-- The compute lease that the batch runs under.
unfoldable pub compute_lease_for :
    Env → Claiming → (first : Request) (n now : ℕ) → Db → Acquired × Db
unfolding acquire_compute_lease extend_compute_lease
compute_lease_for env c first n now db =
    if c.share_compute_domain then (unneeded, db) else elim (non_empty c.compute_lease_id) [
      | some id ↦ extend_compute_lease env first n id c.leased_by c.lease_ttl now db
      | none ↦ acquire_compute_lease env first n c.leased_by c.lease_ttl now db
    ]

-- A lease that was made here (`compute_lease_id is None`) and that no row uses goes away.
unfoldable pub drop_new_lease : Claiming → Acquired → List Claim → Db → Db
drop_new_lease c (held id) [] db = elim c.compute_lease_id [
  | none ↦
      if c.share_compute_domain
      then db
      else record db { compute_leases = delete (λ l. l.compute_lease_id == id) db.compute_leases }
  | some _ ↦ db
]
drop_new_lease c _ _ db = db

abbrev pub held_id : Acquired → Option String
held_id (held id) = some id
held_id _ = none

-- What follows the acquisition.
unfoldable pub start_rows :
    Env → Claiming → (now : ℕ) → List Request → Acquired × Db → List Claim × Db
unfolding claim_rows drop_new_lease refresh_batches claimed_batches
start_rows env c now rows (denied, db) = ([], db)
start_rows env c now rows (lease, db) =
    let (claims, db1) = claim_rows env c.leased_by (held_id lease) c.lease_ttl now rows db in
    (claims, refresh_batches (claimed_batches claims) (drop_new_lease c lease claims db1))

-- Whether the batch is put off: by the ready floor, or to let more rows come.
unfoldable pub put_off :
    Env → Claiming → (first : Request) (rest : List Request) (now : ℕ) → Db → Bool
unfolding should_wait_for_ready_floor has_recent_queued_peer service_batch_limit service_or_default
put_off env c first rest now db =
    let reserve = service_or_default first.selected_service_id c.decode_token_reserves in
    let linger_limit = service_batch_limit first.selected_service_id c.batch_limits c.limit in
    if should_wait_for_ready_floor env c first rest reserve now db
    then true
    else if ltb (length (first ∷ rest)) linger_limit && ltb 0 c.batch_linger
    then (if ltb now (newest now first rest + c.batch_linger)
        then true
        else has_recent_queued_peer db.requests first c.node_id c.batch_id now c.batch_linger)
    else false

-- The rows behind the token budget; the first row of the batch stays the first.
unfoldable pub budgeted : Env → Claiming → List Request → List Request
unfolding limit_ready_rows_by_token_budget service_or_default
budgeted env c [] = []
budgeted env c (first ∷ rest) =
    limit_ready_rows_by_token_budget env (first ∷ rest)
      (service_or_default first.selected_service_id c.batch_token_limits)
      (service_or_default first.selected_service_id c.decode_token_reserves)

unfoldable pub claim_budgeted : Env → Claiming → (now : ℕ) → List Request → Db → List Claim × Db
unfolding put_off compute_lease_for start_rows
claim_budgeted env c now [] db = ([], db)
claim_budgeted env c now (first ∷ rest) db =
    let rows = first ∷ rest in
    let leased = compute_lease_for env c first (length rows) now db in
    if put_off env c first rest now db then ([], db) else start_rows env c now rows leased

-- The transaction, with the payloads that it reads left unparsed.
unfoldable pub claim_batch : Env → Claiming → (now : ℕ) → Db → List Claim × Db
unfolding ready_rows budgeted claim_budgeted
claim_batch env c now db = claim_budgeted env c now (budgeted env c (ready_rows env c now db)) db

-- `_claim` reads the payload, which has to be JSON, and for a model an inference request.
abbrev pub parses : Env → Claim → Bool
parses env claim = elim claim.payload [
  | none ↦ false
  | some j ↦ elim claim.request_kind [ model ↦ env.request_parses j | cpu ↦ true ]
]

-- A payload of a claimed row that cannot be read raises, and the transaction is rolled back.
unfoldable pub claim_ready_batch : Env → Claiming → (now : ℕ) → Db → Result (List Claim × Db)
unfolding claim_batch
claim_ready_batch env c now db =
    let claimed = claim_batch env c now db in
    if all (parses env) claimed.0
    then ok claimed
    else value_error "the payload of a claimed request cannot be read"

pub claim_ready_batch-eq-ok :
    (env : Env) (c : Claiming) (now : ℕ) (db : Db) (claimed : List Claim × Db)
    → claim_ready_batch env c now db ≡ ok claimed
    → claim_batch env c now db ≡ claimed
unfolding claim_ready_batch
claim_ready_batch-eq-ok env c now db claimed h =
    elim (Bool-cases (all (parses env) (claim_batch env c now db).0)) [
      | inl read ↦ ok_injective (rw read at h)
      | inr unread ↦ cc (rw unread at h)
    ]
