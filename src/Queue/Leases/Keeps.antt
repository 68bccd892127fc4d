-- ===== src/Queue/Leases/Keeps.antt =====
-- `heartbeat` keeps the queue's invariant.
use ds4_on_spark.Prelude.{
  ℕ, ◌+◌, refl, String, not, ◌&&◌, some, List, [], All-map, length, inl, inr, Bool-cases, arith,
  ◌==◌, string-Eq, nat-Eq,
}
use ds4_on_spark.Sql.{select}
use ds4_on_spark.Queue.Tables.{State, State-Eq, Request, Db}
use ds4_on_spark.Queue.Leases.{heartbeat, one_of}
use ds4_on_spark.Queue.Rows.{Evolves-update}
use ds4_on_spark.Queue.Valid.{IsValid, IsSound, IsSettledBut-update_same}
use ds4_on_spark.Queue.Frame.{Keeps, Keeps-refl}

-- A heartbeat keeps the tables valid, and moves only rows that may move.
pub heartbeat-Keeps :
    (lease_ids : List String) (ttl now : ℕ) (db : Db)
    → IsValid db
    → Keeps db (heartbeat lease_ids ttl now db).1
unfolding heartbeat
heartbeat-Keeps lease_ids ttl now db v =
    let ids = select (λ i. not (i == "")) lease_ids in
    let p = λ (r : Request). r.state == State.running && one_of ids r.lease_id in
    let f = λ (r : Request). record r {
      heartbeat_at = some now;
      lease_expires_at = some (now + ttl);
      updated_at = now;
    } in
    elim (Bool-cases (length ids == 0)) [
      | inl e ↦ rw e (Keeps-refl db v)
      | inr e ↦ rw e (record {
        valid =
            IsSettledBut-update_same p f [] db.requests db.batches (λ r. refl) (λ r. (refl, refl))
              (λ r beats s. ground (arith, beats)) v;
        evolves = Evolves-update p f db.requests (
            All-map IsSound _ db.requests
              (λ r _ beats. record {
                same_id = refl;
                same_batch = refl;
                same_profile = refl;
                same_payload = refl;
                attempts = omega arith;
                final = λ done. ground (arith, beats, done);
              })
              v.sound);
      })
    ]
