-- ===== src/Queue/Rows.antt =====
-- How the rows of `requests` change: what a method may do to a row, and what the primary key gives.
use ds4_on_spark.Prelude.{
  head?, some, ◌≤◌, ◌≡◌, ◌≢◌, refl, sym, ◌∙◌, ap, subst, String, Bool, true, List, [], ◌∷◌, ◌++◌,
  All, All-map, inl, inr, Bool-cases, arith, string-Eq,
}
use ds4_on_spark.Sql.{select, update, order_by, insert_sorted}
use ds4_on_spark.Sql.Laws.{All-select, All-select_self, All-order_by, All-insert_sorted}
use ds4_on_spark.Queue.Tables.{Request, terminal}

-- What every method keeps of a row: who it is, what was asked, and all of it once it is final.
pub record Moves (r s : Request) : Type 0 where
  pub same_id : s.request_id ≡ r.request_id
  pub same_batch : s.batch_id ≡ r.batch_id
  pub same_profile : s.selected_profile_id ≡ r.selected_profile_id
  pub same_payload : s.request_json ≡ r.request_json
  pub attempts : r.attempt_count ≤ s.attempt_count
  pub final : terminal r.state ≡ true → s ≡ r

pub Moves-refl : (r : Request) → Moves r r
Moves-refl r = record {
  same_id = refl;
  same_batch = refl;
  same_profile = refl;
  same_payload = refl;
  attempts = omega arith;
  final = λ _. refl;
}

pub Moves-trans : {r s t : Request} → Moves r s → Moves s t → Moves r t
Moves-trans {r} {s} {t} m n = record {
  same_id = n.same_id ∙ m.same_id;
  same_batch = n.same_batch ∙ m.same_batch;
  same_profile = n.same_profile ∙ m.same_profile;
  same_payload = n.same_payload ∙ m.same_payload;
  attempts = omega (arith, m.attempts, n.attempts);
  final =
      λ done. n.final (ap (λ (x : Request). terminal x.state) (m.final done) ∙ done) ∙ m.final done;
}

-- The rows keep their places, each moves, and new rows come behind them.
abbrev pub Evolves : List Request → List Request → Type 0
Evolves [] ss = Unit
Evolves (r ∷ rs) [] = ⊥
Evolves (r ∷ rs) (s ∷ ss) = Moves r s × Evolves rs ss

pub Evolves-refl : (rs : List Request) → Evolves rs rs
Evolves-refl [] = tt
Evolves-refl (r ∷ rs) = (Moves-refl r, Evolves-refl rs)

pub Evolves-trans : (rs ss ts : List Request) → Evolves rs ss → Evolves ss ts → Evolves rs ts
Evolves-trans [] ss ts m n = tt
Evolves-trans (r ∷ rs) [] ts m n = absurd m
Evolves-trans (r ∷ rs) (s ∷ ss) [] m n = absurd n
Evolves-trans (r ∷ rs) (s ∷ ss) (t ∷ ts) m n = (Moves-trans m.0 n.0, Evolves-trans rs ss ts m.1 n.1)

pub Evolves-append : (rs more : List Request) → Evolves rs (rs ++ more)
Evolves-append [] more = tt
Evolves-append (r ∷ rs) more = (Moves-refl r, Evolves-append rs more)

pub Evolves-update :
    (p : Request → Bool) (f : Request → Request) (rs : List Request)
    → All (λ r. p r ≡ true → Moves r (f r)) rs
    → Evolves rs (update p f rs)
Evolves-update p f [] h = tt
Evolves-update p f (r ∷ rs) h = elim (Bool-cases (p r)) [
  | inl e ↦ rw e (h.0 e, Evolves-update p f rs h.1)
  | inr e ↦ rw e (Moves-refl r, Evolves-update p f rs h.1)
]

-- The primary key.
abbrev pub IsKeyed : List Request → Type 0
IsKeyed [] = Unit
IsKeyed (r ∷ rs) = All (λ s. s.request_id ≢ r.request_id) rs × IsKeyed rs

-- The table has no other row of this one's id.
abbrev pub Fixes : List Request → Request → Type 0
Fixes table row = All (λ r. r.request_id ≡ row.request_id → r ≡ row) table

pub Fixes-self : (table : List Request) → IsKeyed table → All (Fixes table) table
Fixes-self [] h = tt
Fixes-self (x ∷ xs) h = (
  (
    (λ _. refl),
    All-map (λ s. s.request_id ≢ x.request_id) (λ r. r.request_id ≡ x.request_id → r ≡ x) xs
        (λ s ne e. absurd (ne e)) h.0,
  ),
  go xs h.0 (Fixes-self xs h.1),
)
  where
    go :
        (ys : List Request)
        → All (λ s. s.request_id ≢ x.request_id) ys
        → All (Fixes xs) ys
        → All (Fixes (x ∷ xs)) ys
    go [] ne f = tt
    go (y ∷ ys) ne f = (((λ e. absurd (ne.0 (sym e))), f.0), go ys ne.1 f.1)

-- The rows of a query are those of the table.
pub Fixes-select :
    (p : Request → Bool) (table : List Request) → IsKeyed table → All (Fixes table) (select p table)
Fixes-select p table h = All-select (Fixes table) p table (Fixes-self table h)

pub All-ids_update {κ} :
    (P : String → Type κ) (p : Request → Bool) (f : Request → Request) (rs : List Request)
    → ((r : Request) → (f r).request_id ≡ r.request_id)
    → All (λ r. P r.request_id) rs
    → All (λ r. P r.request_id) (update p f rs)
All-ids_update P p f [] keep h = tt
All-ids_update P p f (r ∷ rs) keep h = elim (Bool-cases (p r)) [
  | inl e ↦ rw e (subst P (sym (keep r)) h.0, All-ids_update P p f rs keep h.1)
  | inr e ↦ rw e (h.0, All-ids_update P p f rs keep h.1)
]

pub IsKeyed-update :
    (p : Request → Bool) (f : Request → Request) (rs : List Request)
    → ((r : Request) → (f r).request_id ≡ r.request_id)
    → IsKeyed rs
    → IsKeyed (update p f rs)
IsKeyed-update p f [] keep h = tt
IsKeyed-update p f (r ∷ rs) keep h = elim (Bool-cases (p r)) [
  | inl e ↦
      rw (e, keep r)
        (All-ids_update (λ i. i ≢ r.request_id) p f rs keep h.0, IsKeyed-update p f rs keep h.1)
  | inr e ↦
      rw e (All-ids_update (λ i. i ≢ r.request_id) p f rs keep h.0, IsKeyed-update p f rs keep h.1)
]

pub IsKeyed-select : (p : Request → Bool) (rs : List Request) → IsKeyed rs → IsKeyed (select p rs)
IsKeyed-select p [] h = tt
IsKeyed-select p (r ∷ rs) h = elim (Bool-cases (p r)) [
  | inl e ↦ rw e (All-select (λ s. s.request_id ≢ r.request_id) p rs h.0, IsKeyed-select p rs h.1)
  | inr e ↦ rw e (IsKeyed-select p rs h.1)
]

module _ (before : Request → Request → Bool) where
  IsKeyed-insert_sorted :
      (r : Request) (rs : List Request)
      → All (λ s. s.request_id ≢ r.request_id) rs
      → IsKeyed rs
      → IsKeyed (insert_sorted before r rs)
  unfolding insert_sorted
  IsKeyed-insert_sorted r [] ne h = (tt, tt)
  IsKeyed-insert_sorted r (s ∷ rs) ne h = elim (Bool-cases (before s r)) [
    | inl e ↦ rw e (
      All-insert_sorted (λ t. t.request_id ≢ s.request_id) before r rs (λ q. ne.0 (sym q)) h.0,
      IsKeyed-insert_sorted r rs ne.1 h.1,
    )
    | inr e ↦ rw e (ne, h)
  ]

  pub IsKeyed-order_by : (rs : List Request) → IsKeyed rs → IsKeyed (order_by before rs)
  unfolding order_by
  IsKeyed-order_by [] h = tt
  IsKeyed-order_by (r ∷ rs) h =
      IsKeyed-insert_sorted r (order_by before rs)
        (All-order_by (λ s. s.request_id ≢ r.request_id) before rs h.0) (IsKeyed-order_by rs h.1)

-- An update that reaches only rows of the read row's id, where the table has that row.
module _ (row : Request) (p : Request → Bool) (f : Request → Request)
    (only : (r : Request) → p r ≡ true → r.request_id ≡ row.request_id) where
  pub All-update_one {κ} :
      (P : Request → Type κ) (table : List Request)
      → Fixes table row
      → (P row → P (f row))
      → All P table
      → All P (update p f table)
  All-update_one P [] fix step h = tt
  All-update_one P (r ∷ rs) fix step h = elim (Bool-cases (p r)) [
    | inl e ↦
        let same : r ≡ row = fix.0 (only r e) in
        rw e (
          subst (λ x. P (f x)) (sym same) (step (subst P same h.0)),
          All-update_one P rs fix.1 step h.1,
        )
    | inr e ↦ rw e (h.0, All-update_one P rs fix.1 step h.1)
  ]

  -- The rows that it reaches are the row that was read.
  pub Fixes-reached :
      (table : List Request) → Fixes table row → All (λ r. p r ≡ true → r ≡ row) table
  Fixes-reached table fix =
      All-map (λ r. r.request_id ≡ row.request_id → r ≡ row) _ table (λ r same e. same (only r e))
        fix

  pub Evolves-update_one :
      (table : List Request)
      → Fixes table row
      → Moves row (f row)
      → Evolves table (update p f table)
  Evolves-update_one table fix m = Evolves-update p f table (
      All-map (λ r. p r ≡ true → r ≡ row) _ table
        (λ r same e. subst (λ x. Moves x (f x)) (sym (same e)) m) (Fixes-reached table fix))

  -- A row of another id is still that of the table afterwards.
  pub Fixes-update_other :
      (other : Request) (table : List Request)
      → ((r : Request) → (f r).request_id ≡ r.request_id)
      → other.request_id ≢ row.request_id
      → Fixes table other
      → Fixes (update p f table) other
  Fixes-update_other other [] keep ne fix = tt
  Fixes-update_other other (r ∷ rs) keep ne fix = elim (Bool-cases (p r)) [
    | inl e ↦
        rw e (
          (λ q. absurd (ne (sym q ∙ keep r ∙ only r e))),
          Fixes-update_other other rs keep ne fix.1,
        )
    | inr e ↦ rw e (fix.0, Fixes-update_other other rs keep ne fix.1)
  ]

-- A row that a query gives first is one of the table's, and passes the test.
pub head_of_select :
    (p : Request → Bool) (table : List Request) (row : Request)
    → IsKeyed table
    → head? (select p table) ≡ some row
    → Fixes table row × (p row ≡ true)
head_of_select p table row keyed h =
    go (select p table) h (Fixes-select p table keyed) (All-select_self p table)
  where
    go :
        (rs : List Request)
        → head? rs ≡ some row
        → All (Fixes table) rs
        → All (λ r. p r ≡ true) rs
        → Fixes table row × (p row ≡ true)
    go [] e f t = cc
    go (r ∷ rs) e f t =
        let same : r ≡ row = cc in (subst (Fixes table) same f.0, subst (λ x. p x ≡ true) same t.0)
