-- ===== src/Queue/Submit/Keeps.antt =====
-- `submit_requests` and `submit_cpu_requests` keep the queue's invariant.
use ds4_on_spark.Prelude.{
  ℕ, ◌+◌, ◌≡◌, refl, subst, String, Bool, Option, some, List, [], ◌∷◌, length, raise_if, inl, inr,
  Bool-cases, arith, ◌==◌, string-Eq, nat-Eq, ok, >>=-eq-ok,
}
use ds4_on_spark.Prelude.Int.{ℤ}
use ds4_on_spark.Json.{Json}
use ds4_on_spark.Queue.Tables.{State-Eq, Db}
use ds4_on_spark.Queue.Batches.{refresh_batch}
use ds4_on_spark.Queue.ResultError.{Env}
use ds4_on_spark.Queue.Valid.{IsValid, IsSound}
use ds4_on_spark.Queue.Frame.{Keeps, Keeps-refl}
use ds4_on_spark.Queue.Policy.{validated_priority, request_priority}
use ds4_on_spark.Queue.Submit.{loaded, submit_models, submit_batch, submit_requests}
use ds4_on_spark.Queue.Submit.Existing.{existing_submission}
use ds4_on_spark.Queue.Submit.Rows.{
  Incoming, Assignment, Load, Routing, binds, or_zero, model_row, model_payload,
}
use ds4_on_spark.Queue.Submit.Cpu.{CpuItem, cpu_row, submit_cpus, submit_cpu_requests}
use ds4_on_spark.Queue.Submit.Filling.{
  Filling, submit_row-Filling, insert_batch-Filling, Filling-end,
}
use ds4_on_spark.Queue.Submit.Insert.{insert_batch, submit_row}

model_row-IsSound :
    (env : Env) (req : Incoming) (bid profile_id : String) (priority : ℤ)
    (bound : Option Assignment) (now : ℕ)
    → IsSound (model_row env req bid profile_id priority bound now)
unfolding model_row
model_row-IsSound env req bid profile_id priority bound now = ground arith

cpu_row-IsSound :
    (rid bid service : String) (priority : ℤ) (immediate : Bool) (node_id : Option String)
    (payload : Json) (profile_id : String) (now : ℕ)
    → IsSound (cpu_row rid bid service priority immediate node_id payload profile_id now)
unfolding cpu_row
cpu_row-IsSound rid bid service priority immediate node_id payload profile_id now = ground arith

submit_models-Filling :
    (env : Env) (routing : Routing) (bid : String) (priority : Option ℤ) (now : ℕ) (start : Db)
    (reqs : List Incoming) (load : Load) (db db' : Db)
    → submit_models env routing bid priority now reqs load db ≡ ok db'
    → Filling bid start db
    → Filling bid start db'
unfolding submit_models
submit_models-Filling env routing bid priority now start [] load db db' h fill =
    let last : db ≡ db' = cc h in subst (Filling bid start) last fill
submit_models-Filling env routing bid priority now start (req ∷ reqs) load db db' h fill =
    let (one, checked, h1) = >>=-eq-ok (routing.check_input req.input) _ h in
    let (profile_id, resolved, h2) = >>=-eq-ok (routing.resolve req) _ h1 in
    let (prio, valid, h3) = >>=-eq-ok (request_priority req.priority req.immediate priority) _ h2 in
    let (assignment, placed, h4) = >>=-eq-ok (routing.assign profile_id req.immediate load) _ h3 in
    let bound = binds routing assignment in
    let row = model_row env req bid profile_id (or_zero prio) bound now in
    let (db1, stored, h5) = >>=-eq-ok (submit_row row (model_payload row) db) _ h4 in
    submit_models-Filling env routing bid priority now start reqs (loaded bound load) db1 db' h5 (
      submit_row-Filling bid row (model_payload row) start db db1 (unfold model_row in refl)
        (model_row-IsSound env req bid profile_id (or_zero prio) bound now) stored fill)

submit_cpus-Filling :
    (env : Env) (bid service profile_id : String) (priority : ℤ) (immediate : Bool)
    (node_id : Option String) (now : ℕ) (start : Db) (index : ℕ) (items : List CpuItem)
    (db db' : Db)
    → submit_cpus env bid service profile_id priority immediate node_id now index items db ≡ ok db'
    → Filling bid start db
    → Filling bid start db'
unfolding submit_cpus
submit_cpus-Filling env bid service profile_id priority immediate node_id now start index [] db db'
      h fill =
    let last : db ≡ db' = cc h in subst (Filling bid start) last fill
submit_cpus-Filling env bid service profile_id priority immediate node_id now start index
      (item ∷ items) db db' h fill =
    let (db1, stored, more) = >>=-eq-ok (submit_row _ _ db) _ h in
    submit_cpus-Filling env bid service profile_id priority immediate node_id now start (index + 1)
      items db1 db' more
      (submit_row-Filling bid _ _ start db db1 (unfold cpu_row in refl)
        (cpu_row-IsSound _ bid service priority immediate node_id item.payload profile_id now)
        stored fill)

submit_batch-Keeps :
    (env : Env) (routing : Routing) (bid : String) (reqs : List Incoming) (priority : Option ℤ)
    (now : ℕ) (db db' : Db)
    → IsValid db
    → submit_batch env routing bid reqs priority now db ≡ ok db'
    → Keeps db db'
unfolding submit_batch
submit_batch-Keeps env routing bid reqs priority now db db' v h =
    let (db1, opened, h1) = >>=-eq-ok (insert_batch bid db) _ h in
    let (db2, filled, h2) =
      >>=-eq-ok (submit_models env routing bid priority now reqs [] db1) _ h1 in
    let last : refresh_batch bid db2 ≡ db' = cc h2 in
    subst (Keeps db) last (
      Filling-end bid db db2 (
        submit_models-Filling env routing bid priority now db reqs [] db1 db2 filled
          (insert_batch-Filling bid db db1 opened v)))

-- From a valid database, a call of `submit_requests` that does not raise leaves the tables valid; the
-- rows that were there keep their places, ids, batches, profiles and payloads, and those that are final
-- are left as they are.
pub submit_requests-Keeps :
    (env : Env) (routing : Routing) (bid : String) (reqs : List Incoming) (priority : Option ℤ)
    (now : ℕ) (db db' : Db)
    → IsValid db
    → submit_requests env routing bid reqs priority now db ≡ ok db'
    → Keeps db db'
unfolding submit_requests
submit_requests-Keeps env routing bid reqs priority now db db' v h =
    let (one, some_reqs, h1) = >>=-eq-ok (raise_if (length reqs == 0) _) _ h in
    let (there, found, h2) = >>=-eq-ok (existing_submission env bid reqs priority db) _ h1 in
    elim (Bool-cases there) [
      | inl e ↦ let last : db ≡ db' = cc (rw e at h2) in subst (Keeps db) last (Keeps-refl db v)
      | inr e ↦ submit_batch-Keeps env routing bid reqs priority now db db' v (rw e at h2)
    ]

pub submit_cpu_requests-Keeps :
    (env : Env) (bid service profile_id : String) (priority : Option ℤ) (immediate : Bool)
    (node_id : Option String) (now : ℕ) (items : List CpuItem) (db db' : Db)
    → IsValid db
    → submit_cpu_requests env bid service profile_id priority immediate node_id now items db
      ≡ ok db'
    → Keeps db db'
unfolding submit_cpu_requests
submit_cpu_requests-Keeps env bid service profile_id priority immediate node_id now items db db' v
      h =
    let (prio, valid, h1) = >>=-eq-ok (validated_priority priority (some immediate)) _ h in
    let (one, some_items, h2) = >>=-eq-ok (raise_if (length items == 0) _) _ h1 in
    let (db1, opened, h3) = >>=-eq-ok (insert_batch bid db) _ h2 in
    let (db2, filled, h4) =
      >>=-eq-ok
        (submit_cpus env bid service profile_id (or_zero prio) immediate node_id now 0 items db1) _
        h3 in
    let last : refresh_batch bid db2 ≡ db' = cc h4 in
    subst (Keeps db) last (
      Filling-end bid db db2 (
        submit_cpus-Filling env bid service profile_id (or_zero prio) immediate node_id now db 0
          items db1 db2 filled (insert_batch-Filling bid db db1 opened v)))
