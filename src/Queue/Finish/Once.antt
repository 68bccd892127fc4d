-- ===== src/Queue/Finish/Once.antt =====
-- `finish_request`: what its answer says of the rows, and what a second call finds.
use ds4_on_spark.Prelude.{
  ℕ, ◌≡◌, refl, sym, ◌∙◌, ap, String, Bool, true, false, Option, none, List, [], ◌∷◌, All, head?,
  inl, inr, false≢true, Bool-cases, Option-cases, arith, eq_iff, if◌then◌else◌, ◌==◌, string-Eq, ok,
}
use ds4_on_spark.Json.{Json}
use ds4_on_spark.Sql.{select, update}
use ds4_on_spark.Queue.Tables.{State, State-Eq, Request, Db, terminal}
use ds4_on_spark.Queue.Rows.{Fixes, head_of_select}
use ds4_on_spark.Queue.Valid.{IsValid}
use ds4_on_spark.Queue.Finish.{holds_lease, finished, ignored, finish_row, finish_request}
use ds4_on_spark.Queue.Finish.Keeps.{finish_row-SameTables}

select-update_none :
    (p : Request → Bool) (f : Request → Request) (rs : List Request)
    → ((r : Request) → p (f r) ≡ false)
    → select p (update p f rs) ≡ []
select-update_none p f [] h = refl
select-update_none p f (r ∷ rs) h = elim (Bool-cases (p r)) [
  | inl e ↦ rw (e, h r) (select-update_none p f rs h)
  | inr e ↦ rw (e, e) (select-update_none p f rs h)
]

gone :
    (rid lid : String) (final : State) (j : Json) (e : Option String) (now : ℕ) (r : Request)
    → holds_lease rid lid (finished final j e now r) ≡ false
unfolding holds_lease finished
gone rid lid final j e now r = ground arith

-- The row that a successful call finds, and what it makes of the table.
finish_request-found :
    (rid lid : String) (state : State) (result : Json) (error : Option String) (now : ℕ)
    (db db' : Db)
    → IsValid db
    → finish_request rid lid state result error now db ≡ ok (true, db')
    → (row : Request) × Fixes db.requests row
      × (holds_lease rid lid row ≡ true)
      × (let final = if row.cancel_requested then State.cancelled else state in
          db'.requests
          ≡ update
              (holds_lease rid lid)
              (finished final
                (if final == State.cancelled then ignored result else result)
                error
                now)
              db.requests)
unfolding finish_request
finish_request-found rid lid state result error now db db' v h =
    elim (Bool-cases (terminal state)) [
      | inr e ↦ cc (h, e)
      | inl t ↦ elim (Option-cases (head? (select (holds_lease rid lid) db.requests))) [
        | inl e ↦ ground (arith, t, e, h)
        | inr (row, e) ↦
            let found = head_of_select (holds_lease rid lid) db.requests row v.keyed e in
            let same : finish_row rid lid state result error now row db ≡ db' =
              ground (arith, t, e) in
            (
              row,
              found.0,
              found.1,
              ap (λ (d : Db). d.requests) (sym same)
                  ∙ (finish_row-SameTables rid lid state result error now row db).requests,
            )
      ]
    ]

-- In a valid database, once a call of `finish_request` with a lease has succeeded, a second call with
-- the same request and lease changes nothing and answers false, whatever it reports.
pub finish_request-once :
    (rid lid : String) (state again : State) (result other : Json) (error complaint : Option String)
    (now later : ℕ) (db db' : Db)
    → IsValid db
    → terminal again ≡ true
    → finish_request rid lid state result error now db ≡ ok (true, db')
    → finish_request rid lid again other complaint later db' ≡ ok (false, db')
finish_request-once rid lid state again result other error complaint now later db db' v t h =
    let (row, fix, held, table) = finish_request-found rid lid state result error now db db' v h in
    let empty : select (holds_lease rid lid) db'.requests ≡ [] =
      ap (select (holds_lease rid lid)) table
      ∙ select-update_none (holds_lease rid lid) _ db.requests (gone rid lid _ _ error now) in
    unfold finish_request in rw (t, empty) refl

finished_rows :
    (rid lid : String) (final : State) (j : Json) (e : Option String) (now : ℕ) (row : Request)
    (rs : List Request)
    → holds_lease rid lid row ≡ true
    → Fixes rs row
    → All
        (λ r. r.request_id ≡ rid → (r.state ≡ final) × (r.lease_id ≡ none))
        (update (holds_lease rid lid) (finished final j e now) rs)
finished_rows rid lid final j e now row [] held fix = tt
finished_rows rid lid final j e now row (r ∷ rs) held fix =
    elim (Bool-cases (holds_lease rid lid r)) [
      | inl is ↦ rw is (
        (λ _. unfold finished in (refl, refl)),
        finished_rows rid lid final j e now row rs held fix.1,
      )
      | inr out ↦ rw out (
        (λ same.
            let mine : row.request_id ≡ rid =
              unfold holds_lease in ground (arith, held, eq_iff row.request_id rid) in
            absurd
              (false≢true (sym out ∙ ap (holds_lease rid lid) (fix.0 (same ∙ sym mine)) ∙ held))),
        finished_rows rid lid final j e now row rs held fix.1,
      )
    ]

-- In a valid database, where a call of `finish_request` succeeds, the request's row is final
-- afterwards: cancelled where its cancellation had been asked for, whatever the worker reports, and in
-- the reported state otherwise; and no row holds the lease any more.
pub finish_request-state :
    (rid lid : String) (state : State) (result : Json) (error : Option String) (now : ℕ)
    (db db' : Db)
    → IsValid db
    → finish_request rid lid state result error now db ≡ ok (true, db')
    → (row : Request) × (holds_lease rid lid row ≡ true)
      × Fixes db.requests row
      × All
          (λ r.
            r.request_id ≡ rid
            → (r.state ≡ (if row.cancel_requested then State.cancelled else state))
              × (r.lease_id ≡ none))
          db'.requests
finish_request-state rid lid state result error now db db' v h =
    let (row, fix, held, table) = finish_request-found rid lid state result error now db db' v h in
    (row, held, fix, rw table (finished_rows rid lid _ _ error now row db.requests held fix))
