-- ===== src/Queue/Expire.antt =====
-- queue.py: `requeue_expired_leases`, by which a reaper takes back what crashed workers held, and
-- `_release_prefilling_locked` with its two callers' request half.
pub mod Complete
pub mod Release
pub mod Keeps
use ds4_on_spark.Prelude.{
  ℕ, ◌+◌, String, Bool, true, false, not, ◌&&◌, ◌||◌, Option, none, some, List, [], ◌∷◌, ◌==◌,
  string-Eq, nat-Eq, any, leb, ltb, length, if◌then◌else◌, map,
}
use Prim.Native.String.{◌++◌ as text_append}
use ds4_on_spark.Prelude.Int.{pos}
use ds4_on_spark.Json.{Json, dict}
use ds4_on_spark.Sql.{select, delete, order_by}
use ds4_on_spark.Queue.Tables.{State, Request, Db, State-Eq}
use ds4_on_spark.Queue.Batches.{
  update_requests, event, write_notice, refresh_batch, refresh_batches, delete_request_kv,
}
use ds4_on_spark.Queue.ResultError.{Env}
use ds4_on_spark.Queue.Leases.{release_unused_compute_lease, one_of}
use ds4_on_spark.Queue.Finish.{without_lease, unbound, closed}
use ds4_on_spark.Queue.Cancel.{batch_ids}
use ds4_on_spark.Queue.Text.{before}

-- `_failure(request_id, error)`
abbrev pub failure : String → String → Json
failure request_id error = dict (
    ("format", Json.str "ds4-inference-failure-v1")
    ∷ ("request_id", Json.str request_id)
    ∷ ("status", Json.str "failed")
    ∷ ("error", Json.str error)
    ∷ [])

-- compute_lease_id in (select coalesce(compute_lease_id,'') from requests where state='running')
in_use : List Request → String → Bool
in_use rs id =
    any
      (λ r.
        r.state == State.running
        && (elim r.compute_lease_id [ none ↦ "" == id | some c ↦ c == id ]))
      rs

abbrev at_most : Option ℕ → ℕ → Bool
at_most none now = false
at_most (some t) now = leb t now

-- state in ('prefilling','running') and lease_expires_at <= now
unfoldable pub expired : ℕ → Request → Bool
expired now r =
    (r.state == State.prefilling || r.state == State.running) && at_most r.lease_expires_at now

-- `order by lease_expires_at, request_id`, on rows that have both.
abbrev pub sooner : Request → Request → Bool
sooner a b = elim a.lease_expires_at [
  | none ↦ false
  | some s ↦ elim b.lease_expires_at [
    | none ↦ false
    | some t ↦ ltb s t || s == t && before a.request_id b.request_id
  ]
]

unfoldable pub expired_to_queue : ℕ → Request → Request
expired_to_queue now r = record (without_lease (unbound r)) {
  state = State.queued;
  compute_lease_id = none;
  updated_at = now;
}

abbrev expired_payload : Request → Json
expired_payload row =
    dict (
      ("batch_id", Json.str row.batch_id)
      ∷ ("attempt_count", Json.num (pos row.attempt_count))
      ∷ [])

-- The two arms on the row's state, which hold its updates.
unfoldable pub expire_change : Env → (max_attempts now : ℕ) → Request → Db → Db
unfolding expired_to_queue closed delete_request_kv write_notice
expire_change env max_attempts now row db =
    let rid = row.request_id in
    let message =
      text_append "lease expired after "
        (text_append (env.decimal row.attempt_count) " attempts") in
    let result = failure rid message in
    if leb max_attempts row.attempt_count
    then write_notice rid State.failed result (
        update_requests (λ r. r.request_id == rid) (closed State.failed result "lease_expired" now)
          db)
    else update_requests (λ r. r.request_id == rid) (expired_to_queue now)
        (delete_request_kv rid db)

-- One pass of the loop.
unfoldable pub expire_row : Env → (max_attempts now : ℕ) → Request → Db → Db
unfolding expire_change release_unused_compute_lease event refresh_batch
expire_row env max_attempts now row db =
    let state = if leb max_attempts row.attempt_count then State.failed else State.queued in
    refresh_batch row.batch_id (
      event row.request_id "lease_expired" state (expired_payload row) (
        release_unused_compute_lease row.compute_lease_id
          (expire_change env max_attempts now row db)))

unfoldable pub expire_rows : Env → (max_attempts now : ℕ) → List Request → Db → Db
unfolding expire_row
expire_rows env max_attempts now [] db = db
expire_rows env max_attempts now (row ∷ rows) db =
    expire_rows env max_attempts now rows (expire_row env max_attempts now row db)

unfoldable pub requeue_expired_leases : Env → (max_attempts now : ℕ) → Db → Db
unfolding in_use expired expire_rows
requeue_expired_leases env max_attempts now db =
    let db1 = record db {
      compute_leases =
          delete (λ l. leb l.lease_expires_at now && not (in_use db.requests l.compute_lease_id))
            db.compute_leases;
    } in
    expire_rows env max_attempts now (order_by sooner (select (expired now) db.requests)) db1

-- state='prefilling', and updated_at<=now-stale_s if stale_s is positive
unfoldable pub stale_prefilling : (stale now : ℕ) → Request → Bool
stale_prefilling stale now r =
    r.state == State.prefilling && (if ltb 0 stale then leb (r.updated_at + stale) now else true)

unfoldable pub released_row : ℕ → Request → Request
released_row now r = record (without_lease (unbound r)) {
  state = State.queued;
  compute_lease_id = none;
  ready_at = none;
  updated_at = now;
}

unfoldable pub release_events : String → List Request → Db → Db
unfolding event release_unused_compute_lease
release_events reason [] db = db
release_events reason (row ∷ rows) db = release_events reason rows (
    release_unused_compute_lease row.compute_lease_id (
      event row.request_id "jit_kv_recovered" State.queued
        (dict (("batch_id", Json.str row.batch_id) ∷ ("reason", Json.str reason) ∷ [])) db))

unfoldable pub release_prefilling : (reason : String) (stale now : ℕ) → Db → ℕ × Db
unfolding stale_prefilling released_row release_events refresh_batches
release_prefilling reason stale now db =
    let by_age = λ (a b : Request).
      ltb a.updated_at b.updated_at
      || a.updated_at == b.updated_at && before a.request_id b.request_id in
    let rows = order_by by_age (select (stale_prefilling stale now) db.requests) in
    let request_ids = map (λ (r : Request). r.request_id) rows in
    let db1 = update_requests (λ r. one_of request_ids (some r.request_id)) (released_row now) db in
    if length rows == 0 then (0, db) else (
      length rows,
      refresh_batches (order_by before (batch_ids rows)) (release_events reason rows db1),
    )
