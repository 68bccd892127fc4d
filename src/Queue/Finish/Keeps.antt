-- ===== src/Queue/Finish/Keeps.antt =====
-- `finish_request` and `retry_transport_failure` keep the queue's invariant.
use ds4_on_spark.Prelude.{
  ℕ, ◌≡◌, refl, String, Bool, true, Option, inl, inr, Bool-cases, Option-cases, head?, ltb, arith,
  eq_iff, subst, ◌≢◌, if◌then◌else◌, ◌==◌, string-Eq, ok,
}
use ds4_on_spark.Json.{Json}
use ds4_on_spark.Sql.{select}
use ds4_on_spark.Queue.Tables.{State, Request, Db, terminal, State-Eq, non_empty}
use ds4_on_spark.Queue.Batches.{update_requests, refresh_batch, delete_request_kv}
use ds4_on_spark.Queue.ResultError.{Env}
use ds4_on_spark.Queue.Rows.{Moves, Fixes, head_of_select}
use ds4_on_spark.Queue.Valid.{IsValid, IsSound}
use ds4_on_spark.Queue.Frame.{
  SameTables, SameTables-trans, SameTables-refresh_batch, SameTables-event, SameTables-write_notice,
  SameTables-delete_request_kv, SameTables-idle, SameTables-release, Keeps, Keeps-refl, Keeps-one,
}
use ds4_on_spark.Queue.Finish.{
  holds_lease, finished, finish_row, finish_request, closed, requeued_row, ignored, retry_cancelled,
  retry_requeued, retry_failed, transport_error, retry_transport_failure,
}

module _ (request_id lease_id : String) (row : Request)
    (held : holds_lease request_id lease_id row ≡ true) where
  only : (r : Request) → holds_lease request_id lease_id r ≡ true → r.request_id ≡ row.request_id
  unfolding holds_lease
  only r e = ground (arith, eq_iff r.request_id request_id, eq_iff row.request_id request_id)

  runs : row.state ≡ State.running
  unfolding holds_lease
  runs = ground arith

  finished-Moves :
      (s : State) (j : Json) (e : Option String) (now : ℕ) → Moves row (finished s j e now row)
  unfolding finished
  finished-Moves s j e now = record {
    same_id = refl;
    same_batch = refl;
    same_profile = refl;
    same_payload = refl;
    attempts = omega arith;
    final = λ done. cc (runs, done);
  }

  finished-IsSound :
      (s : State) (j : Json) (e : Option String) (now : ℕ)
      → terminal s ≡ true
      → IsSound row
      → IsSound (finished s j e now row)
  unfolding finished
  finished-IsSound s j e now t v = ground arith

  -- From running: back to the queue, or closed for good.
  requeued-Moves : (e : String) (now : ℕ) → Moves row (requeued_row e now row)
  unfolding requeued_row
  requeued-Moves e now = record {
    same_id = ground arith;
    same_batch = ground arith;
    same_profile = ground arith;
    same_payload = ground arith;
    attempts = ground arith;
    final = λ done. cc (runs, done);
  }

  requeued-IsSound : (e : String) (now : ℕ) → IsSound row → IsSound (requeued_row e now row)
  unfolding requeued_row
  requeued-IsSound e now v = ground (arith, runs)

  closed-Moves : (s : State) (j : Json) (e : String) (now : ℕ) → Moves row (closed s j e now row)
  unfolding closed
  closed-Moves s j e now = record {
    same_id = refl;
    same_batch = refl;
    same_profile = refl;
    same_payload = refl;
    attempts = omega arith;
    final = λ done. cc (runs, done);
  }

pub closed-IsSound :
    (s : State) (j : Json) (e : String) (now : ℕ) (row : Request)
    → terminal s ≡ true
    → s ≢ State.completed
    → IsSound row
    → IsSound (closed s j e now row)
unfolding closed
closed-IsSound s j e now row t ne v = ground arith

requeued-id :
    (e : String) (now : ℕ) (r : Request) → (requeued_row e now r).request_id ≡ r.request_id
unfolding requeued_row
requeued-id e now r = ground arith

-- What `finish_row` does to the two tables.
pub finish_row-SameTables :
    (request_id lease_id : String) (state : State) (result : Json) (error : Option String) (now : ℕ)
    (row : Request) (db : Db)
    → let final = if row.cancel_requested then State.cancelled else state in
      let f =
        finished final (if final == State.cancelled then ignored result else result) error now in
      SameTables
        (finish_row request_id lease_id state result error now row db)
        (refresh_batch row.batch_id (update_requests (holds_lease request_id lease_id) f db))
unfolding finish_row
finish_row-SameTables request_id lease_id state result error now row db =
    SameTables-trans (SameTables-write_notice _ _ _ _) (
      SameTables-refresh_batch row.batch_id (
        SameTables-trans (SameTables-event _ _ _ _ _) (
          SameTables-trans (SameTables-release row.compute_lease_id _)
            (SameTables-idle (non_empty row.kv_key) request_id now _))))

module _ (request_id lease_id : String) (result : Json) (now : ℕ) (row : Request) (db : Db)
    (fix : Fixes db.requests row) (held : holds_lease request_id lease_id row ≡ true)
    (v : IsValid db) where
  finish_row-Keeps :
      (state : State) (error : Option String)
      → terminal state ≡ true
      → Keeps db (finish_row request_id lease_id state result error now row db)
  unfolding finish_row
  finish_row-Keeps state error t =
      let final = if row.cancel_requested then State.cancelled else state in
      let final_result = if final == State.cancelled then ignored result else result in
      let p = holds_lease request_id lease_id in
      let f = finished final final_result error now in
      let ends : terminal final ≡ true = ground arith in
      Keeps-one row p f (only request_id lease_id row held) db _
        (finish_row-SameTables request_id lease_id state result error now row db)
        (λ r. unfold finished in refl)
        (finished-Moves request_id lease_id row held final final_result error now)
        (finished-IsSound request_id lease_id row held final final_result error now ends) fix v

  retry_cancelled-Keeps :
      (error : String) → Keeps db (retry_cancelled request_id lease_id error result now row db)
  unfolding retry_cancelled
  retry_cancelled-Keeps error =
      let p = holds_lease request_id lease_id in
      let f = closed State.cancelled (ignored result) "cancelled" now in
      Keeps-one row p f (only request_id lease_id row held) db _
        (SameTables-trans (SameTables-write_notice _ _ _ _) (
          SameTables-refresh_batch row.batch_id (
            SameTables-trans (SameTables-event _ _ _ _ _) (
              SameTables-trans (SameTables-release row.compute_lease_id _)
                (SameTables-delete_request_kv request_id (update_requests p f db))))))
        (λ r. unfold closed in refl) (closed-Moves request_id lease_id row held _ _ _ _)
        (closed-IsSound State.cancelled _ "cancelled" now row refl (λ e. cc)) fix v

  retry_failed-Keeps :
      (error : String) → Keeps db (retry_failed request_id lease_id error result now row db)
  unfolding retry_failed
  retry_failed-Keeps error =
      let p = holds_lease request_id lease_id in
      let f = closed State.failed result error now in
      Keeps-one row p f (only request_id lease_id row held) db _
        (SameTables-trans (SameTables-write_notice _ _ _ _) (
          SameTables-refresh_batch row.batch_id (
            SameTables-trans (SameTables-event _ _ _ _ _) (
              SameTables-trans (SameTables-release row.compute_lease_id _)
                (SameTables-delete_request_kv request_id (update_requests p f db))))))
        (λ r. unfold closed in refl) (closed-Moves request_id lease_id row held _ _ _ _)
        (closed-IsSound State.failed _ error now row refl (λ e. cc)) fix v

  retry_requeued-Keeps :
      (error : String) (max_attempts : ℕ)
      → Keeps db (retry_requeued request_id lease_id error max_attempts now row db)
  unfolding retry_requeued
  retry_requeued-Keeps error max_attempts =
      let p = holds_lease request_id lease_id in
      let f = requeued_row error now in
      Keeps-one row p f (only request_id lease_id row held) db _
        (SameTables-refresh_batch row.batch_id (
          SameTables-trans (SameTables-event _ _ _ _ _) (
            SameTables-trans (SameTables-release row.compute_lease_id _)
              (unfold delete_request_kv in record { requests = refl; batches = refl }))))
        (requeued-id error now) (requeued-Moves request_id lease_id row held error now)
        (requeued-IsSound request_id lease_id row held error now) fix v

-- A worker's answer keeps the tables valid, and moves only rows that may move.
pub finish_request-Keeps :
    (request_id lease_id : String) (state : State) (result : Json) (error : Option String) (now : ℕ)
    (db : Db) (done : Bool) (db' : Db)
    → IsValid db
    → finish_request request_id lease_id state result error now db ≡ ok (done, db')
    → Keeps db db'
unfolding finish_request
finish_request-Keeps request_id lease_id state result error now db done db' v h =
    elim (Bool-cases (terminal state)) [
      | inr e ↦ cc (h, e)
      | inl t ↦ elim (Option-cases (head? (select (holds_lease request_id lease_id) db.requests))) [
        | inl e ↦
            let same : db ≡ db' = ground (arith, t, e) in subst (Keeps db) same (Keeps-refl db v)
        | inr (row, e) ↦
            let found =
              head_of_select (holds_lease request_id lease_id) db.requests row v.keyed e in
            let same : finish_row request_id lease_id state result error now row db ≡ db' =
              ground (arith, t, e) in
            subst (Keeps db) same (
              finish_row-Keeps request_id lease_id result now row db found.0 found.1 v state error
                t)
      ]
    ]

-- From a valid database, `retry_transport_failure`, whatever it answers, leaves the tables valid; every row keeps its place, id, batch, profile and
-- payload, its attempt count never falls, and a row that is final is left as it is.
pub retry_transport_failure-Keeps :
    (env : Env) (request_id lease_id : String) (result : Json) (max_attempts now : ℕ) (db : Db)
    → IsValid db
    → Keeps db (retry_transport_failure env request_id lease_id result max_attempts now db).1
unfolding retry_transport_failure
retry_transport_failure-Keeps env request_id lease_id result max_attempts now db v =
    elim (Option-cases (head? (select (holds_lease request_id lease_id) db.requests))) [
      | inl e ↦ rw (e, retry_transport_failure) (Keeps-refl db v)
      | inr (row, e) ↦
          let error = transport_error env result in
          let (fix, held) =
            head_of_select (holds_lease request_id lease_id) db.requests row v.keyed e in
          rw (e, retry_transport_failure)
            (elim (Bool-cases row.cancel_requested) [
              | inl asked ↦
                  rw asked
                    (retry_cancelled-Keeps request_id lease_id result now row db fix held v error)
              | inr kept ↦ rw kept (elim (Bool-cases (ltb row.attempt_count max_attempts)) [
                | inl more ↦ rw more (
                    retry_requeued-Keeps request_id lease_id result now row db fix held v error
                      max_attempts)
                | inr out ↦
                    rw out
                      (retry_failed-Keeps request_id lease_id result now row db fix held v error)
              ])
            ])
    ]
