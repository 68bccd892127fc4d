-- ===== src/Queue/Submit/Appends.antt =====
-- What `submit_requests` writes to the table of the requests.
use ds4_on_spark.Prelude.{
  ℕ, ◌≡◌, refl, sym, ◌∙◌, ap, String, true, false, Option, none, some, List, [], ◌∷◌, ◌++◌, ◌⊎◌,
  inl, inr, Bool-cases, ok, >>=-eq-ok, ok_injective, raise_if, length, ◌==◌, nat-Eq, string-Eq, any,
}
use mathlib.Core.List.{append-nil, append_assoc}
use ds4_on_spark.Prelude.Int.{ℤ}
use ds4_on_spark.Json.{Json}
use ds4_on_spark.Queue.Tables.{State, Kind, Request, Db}
use ds4_on_spark.Queue.Batches.{event, refresh_batch}
use ds4_on_spark.Queue.ResultError.{Env}
use ds4_on_spark.Queue.Policy.{request_priority}
use ds4_on_spark.Queue.Submit.{loaded, submit_models, submit_batch, submit_requests}
use ds4_on_spark.Queue.Submit.Existing.{existing_submission}
use ds4_on_spark.Queue.Submit.Insert.{insert_batch, insert_request, submit_row}
use ds4_on_spark.Queue.Submit.Rows.{
  Incoming, Load, Routing, binds, or_zero, model_row, model_payload,
}

-- The row of a request that has come in: it waits, for the profile that the registry resolves and at
-- the priority that the policy gives, and nobody has worked on it.
pub record Waits (routing : Routing) (bid : String) (priority : Option ℤ) (now : ℕ) (req : Incoming)
    (row : Request) : Type 0 where
  pub request_id : row.request_id ≡ req.request_id
  pub batch_id : row.batch_id ≡ bid
  pub kind : row.request_kind ≡ Kind.model
  pub queued : row.state ≡ State.queued
  pub immediate : row.immediate ≡ req.immediate
  pub payload : row.request_json ≡ some req.raw
  pub profile : routing.resolve req ≡ ok row.selected_profile_id
  pub at_priority :
      (p : Option ℤ) × (request_priority req.priority req.immediate priority ≡ ok p)
      × (row.priority ≡ or_zero p)
  pub unclaimed : row.lease_id ≡ none
  pub unanswered : row.result_json ≡ none
  pub not_asked : row.cancel_requested ≡ false
  pub untried : row.attempt_count ≡ 0
  pub created_at : row.created_at ≡ now

-- One row for each request, in their order.
pub WaitsAll :
    (routing : Routing) (bid : String) (priority : Option ℤ) (now : ℕ)
    → List Incoming
    → List Request
    → Type 0
WaitsAll routing bid priority now [] [] = Unit {0}
WaitsAll routing bid priority now [] (row ∷ rows) = ⊥
WaitsAll routing bid priority now (req ∷ reqs) [] = ⊥
WaitsAll routing bid priority now (req ∷ reqs) (row ∷ rows) =
    Waits routing bid priority now req row × WaitsAll routing bid priority now reqs rows

insert_request-requests :
    (row : Request) (db after : Db)
    → insert_request row db ≡ ok after
    → after.requests ≡ db.requests ++ row ∷ []
unfolding insert_request
insert_request-requests row db after h =
    elim (Bool-cases (any (λ (r : Request). r.request_id == row.request_id) db.requests)) [
      | inl taken ↦ cc (rw taken at h)
      | inr free ↦
          let stored : record db { requests = db.requests ++ row ∷ [] } ≡ after =
            cc (rw free at h) in
          ap (λ (d : Db). d.requests) (sym stored)
    ]

submit_row-requests :
    (row : Request) (payload : Json) (db after : Db)
    → submit_row row payload db ≡ ok after
    → after.requests ≡ db.requests ++ row ∷ []
unfolding submit_row
submit_row-requests row payload db after h =
    let (db1, inserted, rest) = >>=-eq-ok (insert_request row db) _ h in
    let last : event row.request_id "submitted" row.state payload db1 ≡ after = cc rest in
    let noted : (event row.request_id "submitted" row.state payload db1).requests ≡ db1.requests =
      unfold event in refl in
    ap (λ (d : Db). d.requests) (sym last) ∙ (noted ∙ insert_request-requests row db db1 inserted)

module _ (env : Env) (routing : Routing) (bid : String) (priority : Option ℤ) (now : ℕ) where
  submit_models-Waits :
      (reqs : List Incoming) (load : Load) (db after : Db)
      → submit_models env routing bid priority now reqs load db ≡ ok after
      → (rows : List Request) × (after.requests ≡ db.requests ++ rows)
        × WaitsAll routing bid priority now reqs rows
  unfolding submit_models WaitsAll
  submit_models-Waits [] load db after h =
      let last : db ≡ after = cc h in
      ([], ap (λ (d : Db). d.requests) (sym last) ∙ sym (append-nil db.requests), tt)
  submit_models-Waits (req ∷ reqs) load db after h =
      let (one, checked, h1) = >>=-eq-ok (routing.check_input req.input) _ h in
      let (profile_id, resolved, h2) = >>=-eq-ok (routing.resolve req) _ h1 in
      let (prio, valid, h3) =
        >>=-eq-ok (request_priority req.priority req.immediate priority) _ h2 in
      let (assignment, placed, h4) =
        >>=-eq-ok (routing.assign profile_id req.immediate load) _ h3 in
      let bound = binds routing assignment in
      let row = model_row env req bid profile_id (or_zero prio) bound now in
      let (db1, stored, h5) = >>=-eq-ok (submit_row row (model_payload row) db) _ h4 in
      let (rows, more, waits) = submit_models-Waits reqs (loaded bound load) db1 after h5 in
      (
        row ∷ rows,
        more
            ∙ (ap (λ l. l ++ rows) (submit_row-requests row (model_payload row) db db1 stored)
                ∙ append_assoc db.requests (row ∷ []) rows),
        (
          unfold model_row in
              record {
                request_id = refl;
                batch_id = refl;
                kind = refl;
                queued = refl;
                immediate = refl;
                payload = refl;
                profile = resolved;
                at_priority = (prio, valid, refl);
                unclaimed = refl;
                unanswered = refl;
                not_asked = refl;
                untried = refl;
                created_at = refl;
              },
          waits,
        ),
      )

  submit_batch-Waits :
      (reqs : List Incoming) (db after : Db)
      → submit_batch env routing bid reqs priority now db ≡ ok after
      → (rows : List Request) × (after.requests ≡ db.requests ++ rows)
        × WaitsAll routing bid priority now reqs rows
  unfolding submit_batch insert_batch refresh_batch
  submit_batch-Waits reqs db after h =
      let (db1, opened, h1) = >>=-eq-ok (insert_batch bid db) _ h in
      let (db2, filled, h2) =
        >>=-eq-ok (submit_models env routing bid priority now reqs [] db1) _ h1 in
      let last : refresh_batch bid db2 ≡ after = cc h2 in
      let (rows, more, waits) = submit_models-Waits reqs [] db1 db2 filled in
      let same : db1.requests ≡ db.requests = opened_same db1 opened in
      (rows, ap (λ (d : Db). d.requests) (sym last) ∙ (more ∙ ap (λ l. l ++ rows) same), waits)
    where
      opened_same : (db1 : Db) → insert_batch bid db ≡ ok db1 → db1.requests ≡ db.requests
      opened_same db1 opened = elim (Bool-cases (any (λ b. b.batch_id == bid) db.batches)) [
        | inl taken ↦ cc (rw taken at opened)
        | inr free ↦
            let stored = ok_injective (rw free at opened) in
            ap (λ (d : Db). d.requests) (sym stored)
      ]

  -- A call of `submit_requests` that does not raise finds the batch as it was submitted before and
  -- changes nothing; or it leaves every row that was there as it was and puts behind them one row for
  -- each request, in their order, that waits for the profile resolved and at the priority given.
  pub submit_requests-Waits :
      (reqs : List Incoming) (db after : Db)
      → submit_requests env routing bid reqs priority now db ≡ ok after
      → ((existing_submission env bid reqs priority db ≡ ok true) × (after ≡ db))
        ⊎ ((rows : List Request) × (after.requests ≡ db.requests ++ rows)
            × WaitsAll routing bid priority now reqs rows)
  unfolding submit_requests
  submit_requests-Waits reqs db after h =
      let (one, some_reqs, h1) = >>=-eq-ok (raise_if (length reqs == 0) _) _ h in
      let (there, found, h2) = >>=-eq-ok (existing_submission env bid reqs priority db) _ h1 in
      elim (Bool-cases there) [
        | inl e ↦ let last : db ≡ after = cc (rw e at h2) in inl (rw e at found, sym last)
        | inr e ↦ inr (submit_batch-Waits reqs db after (rw e at h2))
      ]
