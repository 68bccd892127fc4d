-- ===== src/Queue/Finish.antt =====
-- queue.py: `finish_request` and `retry_transport_failure`, by which a worker gives back a request
-- that it holds by a lease.
pub mod Once
pub mod Keeps
use ds4_on_spark.Prelude.{
  ℕ, ltb, List, String, Bool, true, false, not, ◌&&◌, Option, none, some, [], ◌∷◌, ◌==◌, string-Eq,
  holds, head?, if◌then◌else◌, Result, ok, value_error,
}
use ds4_on_spark.Prelude.Int.{pos}
use ds4_on_spark.Json
use ds4_on_spark.Json.{Json, dict, text}
use ds4_on_spark.Sql.{select, update}
use ds4_on_spark.Queue.Tables.{
  State, Request, KvState, Db, State-Eq, terminal, state_text, non_empty,
}
use ds4_on_spark.Queue.Batches.{
  update_requests, event, write_notice, refresh_batch, delete_request_kv,
}
use ds4_on_spark.Queue.ResultError.{Env, result_error}
use ds4_on_spark.Queue.Leases.{release_unused_compute_lease}

-- request_id=? and lease_id=? and state='running'
unfoldable pub holds_lease : String → String → Request → Bool
holds_lease request_id lease_id r =
    r.request_id == request_id && holds r.lease_id lease_id && r.state == State.running

-- lease_id=null, leased_by=null, lease_expires_at=null, heartbeat_at=null
abbrev pub without_lease : Request → Request
without_lease r = record r {
  lease_id = none;
  leased_by = none;
  lease_expires_at = none;
  heartbeat_at = none;
}

-- `dict(result, status="cancelled", ignored_result=True)`
unfoldable pub ignored : Json → Json
ignored result =
    Json.set (Json.set result "status" (Json.str "cancelled")) "ignored_result" (Json.bool true)

-- `error or final`
abbrev or_else : Option String → String → String
or_else e d = elim (non_empty e) [ none ↦ d | some s ↦ s ]

unfoldable pub finished : State → Json → Option String → ℕ → Request → Request
finished final result error now r = without_lease (record r {
  state = final;
  result_json = some result;
  error = if final == State.completed then none else some (or_else error (state_text final));
  completed_at = some now;
  updated_at = now;
})

-- The two `update … set state='idle'` statements.
unfoldable pub idle_request_kv : String → ℕ → Db → Db
idle_request_kv request_id now db = record db {
  kv_entries =
      update (λ e. e.request_id == request_id)
        (λ e. record e { state = KvState.idle; last_used_at = now }) db.kv_entries;
  kv_shard_entries =
      update (λ e. e.request_id == request_id)
        (λ e. record e { state = KvState.idle; last_used_at = now }) db.kv_shard_entries;
}

-- `if row["kv_key"]:`
unfoldable pub idle_if_keyed : Option String → String → ℕ → Db → Db
unfolding idle_request_kv
idle_if_keyed none request_id now db = db
idle_if_keyed (some _) request_id now db = idle_request_kv request_id now db

-- What follows the guard on `row is None`.
unfoldable pub finish_row :
    (request_id lease_id : String) (state : State) (result : Json) (error : Option String) (now : ℕ)
    → Request
    → Db
    → Db
unfolding idle_if_keyed holds_lease finished ignored release_unused_compute_lease event
    refresh_batch write_notice
finish_row request_id lease_id state result error now row db =
    let final = if row.cancel_requested then State.cancelled else state in
    let final_result = if final == State.cancelled then ignored result else result in
    let db1 =
      update_requests (holds_lease request_id lease_id) (finished final final_result error now)
        db in
    let db2 = idle_if_keyed (non_empty row.kv_key) request_id now db1 in
    let db3 = release_unused_compute_lease row.compute_lease_id db2 in
    let payload =
      dict
        (("batch_id", Json.str row.batch_id) ∷ ("service_id", text row.selected_service_id) ∷ []) in
    write_notice request_id final final_result
      (refresh_batch row.batch_id (event request_id (state_text final) final payload db3))

unfoldable pub finish_request :
    (request_id lease_id : String) (state : State) (result : Json) (error : Option String) (now : ℕ)
    → Db
    → Result (Bool × Db)
unfolding holds_lease finish_row
finish_request request_id lease_id state result error now db =
    if not (terminal state)
    then value_error "unsupported terminal state"
    else elim (head? (select (holds_lease request_id lease_id) db.requests)) [
      | none ↦ ok (false, db)
      | some row ↦ ok (true, finish_row request_id lease_id state result error now row db)
    ]

pub data Retried : Type 0 where
  lost cancelled requeued failed : Retried

-- `_result_error(result) or "transport_failed"`
unfoldable pub transport_error : Env → Json → String
transport_error env result =
    let found = result_error env result in if found == "" then "transport_failed" else found

-- The columns of a request that goes back to the queue, where no service owns it unbound.
abbrev pub unbound : Request → Request
unbound r = elim r.selected_service_id [
  | none ↦ record r {
    selected_node_id = none;
    selected_node_ids = none;
    selected_compute_domain = none;
  }
  | some _ ↦ r
]

unfoldable pub requeued_row : (error : String) (now : ℕ) → Request → Request
requeued_row error now r = record (without_lease (unbound r)) {
  state = State.queued;
  ready_at = none;
  result_json = none;
  error = some error;
  compute_lease_id = none;
  updated_at = now;
}

-- state=?, result_json=?, error=?, completed_at=?, with the lease given up
unfoldable pub closed : State → Json → String → ℕ → Request → Request
closed state result error now r = without_lease (record r {
  state = state;
  result_json = some result;
  error = some error;
  completed_at = some now;
  updated_at = now;
})

abbrev retry_payload : Request → List (String × Json) → String → Json
retry_payload row more error = dict (
    ("batch_id", Json.str row.batch_id)
    ∷ ("attempt_count", Json.num (pos row.attempt_count))
    ∷ ("error", Json.str error)
    ∷ more)

-- The three branches of the body, once the row is found.
unfoldable pub retry_cancelled :
    (request_id lease_id error : String) (result : Json) (now : ℕ) → Request → Db → Db
unfolding holds_lease closed ignored delete_request_kv release_unused_compute_lease event
    refresh_batch write_notice
retry_cancelled request_id lease_id error result now row db =
    let final = ignored result in
    let db1 =
      update_requests (holds_lease request_id lease_id)
        (closed State.cancelled final "cancelled" now) db in
    let db2 =
      release_unused_compute_lease row.compute_lease_id (delete_request_kv request_id db1) in
    let payload =
      dict (("batch_id", Json.str row.batch_id) ∷ ("after_transport_error", Json.str error) ∷ []) in
    write_notice request_id State.cancelled final
      (refresh_batch row.batch_id (event request_id "cancelled" State.cancelled payload db2))

unfoldable pub retry_requeued :
    (request_id lease_id error : String) (max_attempts now : ℕ) → Request → Db → Db
unfolding holds_lease requeued_row delete_request_kv release_unused_compute_lease event
    refresh_batch
retry_requeued request_id lease_id error max_attempts now row db =
    let db1 =
      update_requests (holds_lease request_id lease_id) (requeued_row error now)
        (delete_request_kv request_id db) in
    let db2 = release_unused_compute_lease row.compute_lease_id db1 in
    refresh_batch row.batch_id (
      event request_id "transport_requeued" State.queued
        (retry_payload row (("max_attempts", Json.num (pos max_attempts)) ∷ []) error) db2)

unfoldable pub retry_failed :
    (request_id lease_id error : String) (result : Json) (now : ℕ) → Request → Db → Db
unfolding holds_lease closed delete_request_kv release_unused_compute_lease event refresh_batch
    write_notice
retry_failed request_id lease_id error result now row db =
    let db1 =
      update_requests (holds_lease request_id lease_id) (closed State.failed result error now) db in
    let db2 =
      release_unused_compute_lease row.compute_lease_id (delete_request_kv request_id db1) in
    write_notice request_id State.failed result (
      refresh_batch row.batch_id
        (event request_id "failed" State.failed (retry_payload row [] error) db2))

unfoldable pub retry_transport_failure :
    Env → (request_id lease_id : String) (result : Json) (max_attempts now : ℕ) → Db → Retried × Db
unfolding holds_lease transport_error retry_cancelled retry_requeued retry_failed
retry_transport_failure env request_id lease_id result max_attempts now db =
    let error = transport_error env result in
    elim (head? (select (holds_lease request_id lease_id) db.requests)) [
      | none ↦ (lost, db)
      | some row ↦
          if row.cancel_requested
          then (cancelled, retry_cancelled request_id lease_id error result now row db)
          else if ltb row.attempt_count max_attempts
          then (requeued, retry_requeued request_id lease_id error max_attempts now row db)
          else (failed, retry_failed request_id lease_id error result now row db)
    ]
