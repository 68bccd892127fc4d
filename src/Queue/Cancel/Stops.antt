-- ===== src/Queue/Cancel/Stops.antt =====
-- What `cancel` does to each row of the table.
use ds4_on_spark.Prelude.{
  ℕ, ◌≡◌, ◌≢◌, refl, sym, ◌∙◌, ap, subst, String, Bool, true, false, some, none, List, [], ◌∷◌, map,
  All, All-In, All-In_own, All-map, In, inl, inr, Bool-cases, eq_iff, ==_self, ==_ne, ne_of-==,
  ◌==◌, string-Eq, if-either, ◌⊎◌, Option, ok, ok_injective, >>=-eq-ok,
}
use ds4_on_spark.Sql.{select, order_by}
use ds4_on_spark.Sql.Laws.{All-select_self, All-order_by, All-order_by_back, In-select}
use ds4_on_spark.Queue.Tables.{State, State-Eq, Request, Db, terminal}
use ds4_on_spark.Queue.Batches.{refresh_batches, refresh_batch}
use ds4_on_spark.Queue.Rows.{Fixes, IsKeyed}
use ds4_on_spark.Queue.Valid.{IsValid}
use ds4_on_spark.Queue.Policy.{job_batch_id}
use ds4_on_spark.Queue.Text.{before}
use ds4_on_spark.Queue.Cancel.{
  cancel_rows, Target, one_request, whole_batch, targets, cancel_target, cancel, Cancelled,
  one_target, batch_ids,
}
use ds4_on_spark.Queue.Cancel.Applied.{
  change_of, applied, cancel_rows-applied, applied-miss, applied-hit,
}
use ds4_on_spark.Queue.Cancel.Keeps.{targets-rows}

-- The rows that a call is about.
abbrev pub Targeted : Target → Request → Type 0
Targeted (one_request rid) r = (rid ≢ "") × (r.request_id ≡ rid)
Targeted (whole_batch bid) r = r.batch_id ≡ bid

-- A row before and after.
pub record Stopped (target : Target) (reason : String) (force : Bool) (now : ℕ) (r s : Request)
    : Type 0 where
  pub others : ¬ Targeted target r → s ≡ r
  pub finals : terminal r.state ≡ true → s ≡ r
  pub asked :
      Targeted target r
      → r.state ≡ State.running
      → force ≡ false
      → s ≡ record r { cancel_requested = true; updated_at = now }
  pub cancelled :
      Targeted target r
      → terminal r.state ≡ false
      → (r.state ≡ State.running → force ≡ true)
      → (s.state ≡ State.cancelled)
        × (s.error ≡ some reason)
        × (s.completed_at ≡ some now)
        × (s.request_id ≡ r.request_id)
  pub freed :
      Targeted target r
      → r.state ≡ State.running
      → force ≡ true
      → (s.lease_id ≡ none) × (s.compute_lease_id ≡ none)

-- The rows of a target are those that it is about.
targets-In :
    (target : Target) (rs : List Request) (r : Request)
    → In r rs
    → Targeted target r
    → In r (targets target rs)
unfolding targets
targets-In (one_request rid) rs r i (named, same_id) =
    rw (==_ne rid "" named) (In-select (λ s. s.request_id == rid) r rs i (rw same_id (==_self rid)))
targets-In (whole_batch bid) rs r i same_batch =
    let found = select (λ (s : Request). s.batch_id == bid) rs in
    let order = λ (a b : Request). before a.request_id b.request_id in
    All-In (λ s. In s (order_by order found)) r found
      (All-order_by_back (λ s. In s (order_by order found)) order found
        (All-In_own (order_by order found)))
      (In-select (λ s. s.batch_id == bid) r rs i (rw same_batch (==_self bid)))

targets-Targeted : (target : Target) (rs : List Request) → All (Targeted target) (targets target rs)
unfolding targets
targets-Targeted (one_request rid) rs =
    if-either (All (Targeted (one_request rid))) (rid == "") []
      (select (λ (s : Request). s.request_id == rid) rs) (λ _. tt)
      (λ named.
        All-map (λ (s : Request). (s.request_id == rid) ≡ true) _ _
          (λ s e. (ne_of-== rid "" named, (eq_iff s.request_id rid).0 e))
          (All-select_self (λ (s : Request). s.request_id == rid) rs))
targets-Targeted (whole_batch bid) rs = All-order_by (Targeted (whole_batch bid)) _ _ (
    All-map (λ (s : Request). (s.batch_id == bid) ≡ true) _ _ (λ s e. (eq_iff s.batch_id bid).0 e)
      (All-select_self (λ (s : Request). s.batch_id == bid) rs))

refresh_batches-requests :
    (bs : List String) (db : Db) → (refresh_batches bs db).requests ≡ db.requests
unfolding refresh_batches refresh_batch
refresh_batches-requests [] db = refl
refresh_batches-requests (b ∷ bs) db = refresh_batches-requests bs (refresh_batch b db)

targeted : (target : Target) (r : Request) → Targeted target r ⊎ (¬ Targeted target r)
targeted (one_request rid) r = elim (Bool-cases (rid == "")) [
  | inl unnamed ↦ inr (λ h. h.0 ((eq_iff rid "").0 unnamed))
  | inr named ↦ elim (Bool-cases (r.request_id == rid)) [
    | inl e ↦ inl (ne_of-== rid "" named, (eq_iff r.request_id rid).0 e)
    | inr e ↦ inr (λ h. ne_of-== r.request_id rid e h.1)
  ]
]
targeted (whole_batch bid) r = elim (Bool-cases (r.batch_id == bid)) [
  | inl e ↦ inl ((eq_iff r.batch_id bid).0 e)
  | inr e ↦ inr (λ h. ne_of-== r.batch_id bid e h)
]

-- A row that the call is not about shares its id with none that it is about.
apart :
    (target : Target) (table rows : List Request) (r : Request)
    → In r table
    → (¬ Targeted target r)
    → All (Targeted target) rows
    → All (Fixes table) rows
    → All (λ s. s.request_id ≢ r.request_id) rows
apart target table [] r i other about fixed = tt
apart target table (s ∷ rows) r i other about fixed = (
  (λ e. other (
      subst (Targeted target)
        (sym (All-In (λ x. x.request_id ≡ s.request_id → x ≡ s) r table fixed.0 i (sym e)))
        about.0)),
  apart target table rows r i other about.1 fixed.1,
)

module _ (target : Target) (reason : String) (force : Bool) (now : ℕ) where
  applied-Stopped :
      (table : List Request) (r : Request)
      → IsKeyed table
      → In r table
      → Stopped target reason force now r (applied reason force now (targets target table) r)
  applied-Stopped table r keyed i =
      let rows = targets target table in
      let (rows_keyed, fixed) = targets-rows target table keyed in
      elim (targeted target r) [
        | inr other ↦
            let kept : applied reason force now rows r ≡ r =
              applied-miss reason force now rows r
                (apart target table rows r i other (targets-Targeted target table) fixed) in
            subst (Stopped target reason force now r) (sym kept) (record {
              others = λ _. refl;
              finals = λ _. refl;
              asked = λ about _ _. absurd (other about);
              cancelled = λ about _ _. absurd (other about);
              freed = λ about _ _. absurd (other about);
            })
        | inl about ↦
            let c = change_of reason force now r in
            let changed =
              applied-hit reason force now rows r rows_keyed (targets-In target table r i about) in
            subst (Stopped target reason force now r) (sym changed) (record {
              others = λ other. absurd (other about);
              finals = λ done. c.finals done r;
              asked = λ _ runs soft. c.asks runs soft r;
              cancelled = λ _ live hard.
                  let (state, error, completed) = c.cancels live hard r in
                  (state, error, completed, c.keeps r);
              freed = λ _ runs hard. c.frees runs hard r;
            })
      ]

-- The arguments name the target.
abbrev pub Named : (request_id batch_id job_id : Option String) → Target → Type 0
Named request_id batch_id job_id (one_request rid) = request_id ≡ some rid
Named request_id batch_id job_id (whole_batch bid) = (batch_id ≡ some bid) ⊎ (job_id ≡ some bid)

job_batch_id-some :
    (batch_id job_id : Option String) (bid : String)
    → job_batch_id batch_id job_id ≡ ok (some bid)
    → (batch_id ≡ some bid) ⊎ (job_id ≡ some bid)
unfolding job_batch_id
job_batch_id-some (some b) (some j) bid h = elim (Bool-cases (b == j)) [
  | inl e ↦ inl (ok_injective (rw e at h))
  | inr e ↦ cc (rw e at h)
]
job_batch_id-some (some b) none bid h = inl (ok_injective h)
job_batch_id-some none j bid h = inr (ok_injective h)

target_of :
    (request_id batch_id job_id bid : Option String) (target : Target)
    → job_batch_id batch_id job_id ≡ ok bid
    → one_target request_id bid ≡ ok target
    → Named request_id batch_id job_id target
target_of (some rid) batch_id job_id none target named h =
    subst (Named (some rid) batch_id job_id) (ok_injective h) refl
target_of none batch_id job_id (some bid) target named h =
    subst (Named none batch_id job_id) (ok_injective h)
      (job_batch_id-some batch_id job_id bid named)
target_of (some rid) batch_id job_id (some bid) target named h = cc h
target_of none batch_id job_id none target named h = cc h

-- A call of `cancel` that does not raise is about one request or one batch, as its arguments name it,
-- and leaves the rows of the table in their places. A row that it is not about, or that is final, is
-- as it was. Of the others, a running one is asked to stop, and changed in nothing else but the time
-- of the update, unless the call is to force; any other is cancelled at once, with the reason and the
-- time, and gives up its leases if it ran.
pub cancel-Stopped :
    (request_id batch_id job_id : Option String) (reason : String) (force : Bool) (now : ℕ)
    (db : Db) (answer : Cancelled) (after : Db)
    → IsValid db
    → cancel request_id batch_id job_id reason force now db ≡ ok (answer, after)
    → (target : Target) × Named request_id batch_id job_id target
      × (f : Request → Request) × (after.requests ≡ map f db.requests)
      × All (λ r. Stopped target reason force now r (f r)) db.requests
unfolding cancel cancel_target
cancel-Stopped request_id batch_id job_id reason force now db answer after v h =
    let (bid, named, rest) = >>=-eq-ok (job_batch_id batch_id job_id) _ h in
    let (target, one, last) = >>=-eq-ok (one_target request_id bid) _ rest in
    let rows = targets target db.requests in
    let f = applied reason force now rows in
    let same : (cancel_target target reason force now db).1 ≡ after = cc last in
    let loop : (cancel_target target reason force now db).1.requests ≡ map f db.requests =
      refresh_batches-requests (batch_ids rows) (cancel_rows reason force now rows db)
      ∙ cancel_rows-applied reason force now rows db in
    (
      target,
      target_of request_id batch_id job_id bid target named one,
      f,
      ap (λ (d : Db). d.requests) (sym same) ∙ loop,
      All-map (λ r. In r db.requests) _ db.requests
          (λ r i. applied-Stopped target reason force now db.requests r v.keyed i)
          (All-In_own db.requests),
    )
