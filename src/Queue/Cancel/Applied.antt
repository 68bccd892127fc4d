-- ===== src/Queue/Cancel/Applied.antt =====
-- What the loop of `cancel` makes of each row of the table.
use ds4_on_spark.Prelude.{
  ℕ, ◌≡◌, ◌≢◌, refl, sym, ◌∙◌, ap, subst, String, Bool, true, false, some, none, List, [], ◌∷◌, map,
  All, All-In, In, inl, inr, Bool-cases, ==_self, ==_ne, ◌==◌, string-Eq, if◌then◌else◌,
}
use ds4_on_spark.Json.{Json}
use ds4_on_spark.Sql.{update}
use ds4_on_spark.Queue.Tables.{State, State-Eq, state_eq_iff, Request, Db, terminal}
use ds4_on_spark.Queue.Rows.{IsKeyed}
use ds4_on_spark.Queue.Cancel.{
  cancel_result, cancel_payload, cancelled_row, force_cancelled_row, asked_row, cancel_row,
  cancel_rows,
}
use ds4_on_spark.Queue.Cancel.Keeps.{cancel_with-SameTables}

module _ (reason : String) (force : Bool) (now : ℕ) where
  -- What a selected row makes of the row of its id, and that it keeps the id.
  pub record Change (row : Request) : Type 0 where
    pub change : Request → Request
    pub keeps : (r : Request) → (change r).request_id ≡ r.request_id
    pub finals : terminal row.state ≡ true → (r : Request) → change r ≡ r
    pub asks :
        row.state ≡ State.running
        → force ≡ false
        → (r : Request) → change r ≡ record r { cancel_requested = true; updated_at = now }
    pub cancels :
        terminal row.state ≡ false
        → (row.state ≡ State.running → force ≡ true)
        → (r : Request)
        → ((change r).state ≡ State.cancelled)
          × ((change r).error ≡ some reason)
          × ((change r).completed_at ≡ some now)
    pub frees :
        row.state ≡ State.running
        → force ≡ true
        → (r : Request) → ((change r).lease_id ≡ none) × ((change r).compute_lease_id ≡ none)
    pub does :
        (db : Db)
        → (cancel_row reason force now row db).requests
          ≡ update (λ r. r.request_id == row.request_id) change db.requests

  update-same : (p : Request → Bool) (rs : List Request) → update p (λ r. r) rs ≡ rs
  update-same p [] = refl
  update-same p (r ∷ rs) = elim (Bool-cases (p r)) [
    | inl e ↦ rw e (ap (λ l. r ∷ l) (update-same p rs))
    | inr e ↦ rw e (ap (λ l. r ∷ l) (update-same p rs))
  ]

  pub change_of : (row : Request) → Change row
  unfolding cancel_row
  change_of row = elim (Bool-cases (terminal row.state)) [
    | inl done ↦ record {
      change = λ r. r;
      keeps = λ r. refl;
      finals = λ _ r. refl;
      asks = λ runs _ r. cc (runs, done);
      cancels = λ live _ r. cc (live, done);
      frees = λ runs _ r. cc (runs, done);
      does = λ db. rw done (sym (update-same _ db.requests));
    }
    | inr live ↦ elim (Bool-cases (row.state == State.running)) [
      | inr waits ↦ record {
        change = cancelled_row (cancel_result row.request_id reason []) reason now;
        keeps = λ r. unfold cancelled_row in refl;
        finals = λ done r. cc (live, done);
        asks = λ runs _ r. cc (waits, (state_eq_iff row.state State.running).1 runs);
        cancels = λ _ _ r. unfold cancelled_row in (refl, refl, refl);
        frees = λ runs _ r. cc (waits, (state_eq_iff row.state State.running).1 runs);
        does = λ db.
            rw (live, waits)
              ((cancel_with-SameTables _ (cancel_result row.request_id reason [])
                (cancel_payload row reason []) row db).requests);
      }
      | inl e ↦
          let runs : row.state ≡ State.running = (state_eq_iff row.state State.running).0 e in
          elim (Bool-cases force) [
            | inl f ↦ record {
              change =
                  force_cancelled_row
                    (cancel_result row.request_id reason (("forced", Json.bool true) ∷ [])) reason
                    now;
              keeps = λ r. unfold force_cancelled_row in refl;
              finals = λ done r. cc (live, done);
              asks = λ _ soft r. cc (f, soft);
              cancels = λ _ _ r. unfold force_cancelled_row in (refl, refl, refl);
              frees = λ _ _ r. unfold force_cancelled_row in (refl, refl);
              does = λ db.
                  rw (live, e, f)
                    ((cancel_with-SameTables _
                      (cancel_result row.request_id reason (("forced", Json.bool true) ∷ []))
                      (cancel_payload row reason (("forced", Json.bool true) ∷ [])) row
                      db).requests);
            }
            | inr f ↦ record {
              change = asked_row now;
              keeps = λ r. unfold asked_row in refl;
              finals = λ done r. cc (live, done);
              asks = λ _ _ r. unfold asked_row in refl;
              cancels = λ _ hard r. cc (f, hard runs);
              frees = λ _ hard r. cc (f, hard);
              does = λ db. rw (live, e, f) refl;
            }
          ]
    ]
  ]

  -- What a row of the table becomes as the loop goes through the selected rows.
  pub applied : List Request → Request → Request
  applied [] r = r
  applied (row ∷ rows) r =
      applied rows (if r.request_id == row.request_id then (change_of row).change r else r)

  map-same : (rs : List Request) → map (applied []) rs ≡ rs
  unfolding applied
  map-same [] = refl
  map-same (r ∷ rs) = ap (λ l. r ∷ l) (map-same rs)

  map-update :
      (row : Request) (rows rs : List Request)
      → map (applied rows) (update (λ r. r.request_id == row.request_id) (change_of row).change rs)
        ≡ map (applied (row ∷ rows)) rs
  unfolding applied
  map-update row rows [] = refl
  map-update row rows (r ∷ rs) =
      ap
        (λ l.
          applied rows (if r.request_id == row.request_id then (change_of row).change r else r) ∷ l)
        (map-update row rows rs)

  pub cancel_rows-applied :
      (rows : List Request) (db : Db)
      → (cancel_rows reason force now rows db).requests ≡ map (applied rows) db.requests
  unfolding cancel_rows
  cancel_rows-applied [] db = sym (map-same db.requests)
  cancel_rows-applied (row ∷ rows) db =
      cancel_rows-applied rows (cancel_row reason force now row db)
      ∙ (ap (map (applied rows)) ((change_of row).does db) ∙ map-update row rows db.requests)

  pub applied-miss :
      (rows : List Request) (r : Request)
      → All (λ s. s.request_id ≢ r.request_id) rows
      → applied rows r ≡ r
  unfolding applied
  applied-miss [] r h = refl
  applied-miss (row ∷ rows) r h =
      let other : (r.request_id == row.request_id) ≡ false =
        ==_ne r.request_id row.request_id (λ e. h.0 (sym e)) in
      rw other (applied-miss rows r h.1)

  pub applied-hit :
      (rows : List Request) (r : Request)
      → IsKeyed rows
      → In r rows
      → applied rows r ≡ (change_of r).change r
  unfolding applied
  applied-hit [] r keyed i = elim i [ ]
  applied-hit (row ∷ rows) r keyed (inl e) =
      let one : applied rows ((change_of row).change row) ≡ (change_of row).change row =
        applied-miss rows ((change_of row).change row) (
          subst (λ k. All (λ (s : Request). s.request_id ≢ k) rows)
            (sym ((change_of row).keeps row)) keyed.0) in
      subst
        (λ (x : Request).
          applied rows (if x.request_id == row.request_id then (change_of row).change x else x)
          ≡ (change_of x).change x)
        (sym e) (rw (==_self row.request_id) one)
  applied-hit (row ∷ rows) r keyed (inr i) =
      let apart : r.request_id ≢ row.request_id =
        All-In (λ (s : Request). s.request_id ≢ row.request_id) r rows keyed.0 i in
      rw (==_ne r.request_id row.request_id apart) (applied-hit rows r keyed.1 i)
