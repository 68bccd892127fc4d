-- ===== src/Sql/Laws.antt =====
-- What the statements keep of a property that every row has, and what they count.
use ds4_on_spark.Prelude.{
  In, subst, ℕ, zero, suc, ◌+◌, ◌≡◌, refl, ap, Bool, true, List, [], ◌∷◌, take, All, count, sum_by,
  length, inl, inr, Bool-cases, arith,
}
use ds4_on_spark.Sql.{select, update, delete, insert_sorted, order_by}

module _ {ℓ κ} {A : Type ℓ} (P : A → Type κ) where
  pub All-select : (p : A → Bool) (rs : List A) → All P rs → All P (select p rs)
  All-select p [] h = tt
  All-select p (r ∷ rs) h = elim (Bool-cases (p r)) [
    | inl e ↦ rw e (h.0, All-select p rs h.1)
    | inr e ↦ rw e (All-select p rs h.1)
  ]

  -- Only the rows that pass the test matter.
  pub All-select_if :
      (p : A → Bool) (rs : List A) → All (λ r. p r ≡ true → P r) rs → All P (select p rs)
  All-select_if p [] h = tt
  All-select_if p (r ∷ rs) h = elim (Bool-cases (p r)) [
    | inl e ↦ rw e (h.0 e, All-select_if p rs h.1)
    | inr e ↦ rw e (All-select_if p rs h.1)
  ]

  pub All-delete : (p : A → Bool) (rs : List A) → All P rs → All P (delete p rs)
  All-delete p [] h = tt
  All-delete p (r ∷ rs) h = elim (Bool-cases (p r)) [
    | inl e ↦ rw e (All-delete p rs h.1)
    | inr e ↦ rw e (h.0, All-delete p rs h.1)
  ]

  -- Each row keeps the property, or has it anew where the statement fits.
  -- As the rows of the table allow.
  pub All-update_if :
      (p : A → Bool) (f : A → A) (rs : List A)
      → All (λ r. p r ≡ true → P (f r)) rs
      → All P rs
      → All P (update p f rs)
  All-update_if p f [] step h = tt
  All-update_if p f (r ∷ rs) step h = elim (Bool-cases (p r)) [
    | inl e ↦ rw e (step.0 e, All-update_if p f rs step.1 h.1)
    | inr e ↦ rw e (h.0, All-update_if p f rs step.1 h.1)
  ]

  pub All-update :
      (p : A → Bool) (f : A → A) (rs : List A)
      → ((r : A) → p r ≡ true → P r → P (f r))
      → All P rs
      → All P (update p f rs)
  All-update p f [] step h = tt
  All-update p f (r ∷ rs) step h = elim (Bool-cases (p r)) [
    | inl e ↦ rw e (step r e h.0, All-update p f rs step h.1)
    | inr e ↦ rw e (h.0, All-update p f rs step h.1)
  ]

  pub All-insert_sorted :
      (before : A → A → Bool) (r : A) (rs : List A)
      → P r
      → All P rs
      → All P (insert_sorted before r rs)
  unfolding insert_sorted
  All-insert_sorted before r [] h k = (h, tt)
  All-insert_sorted before r (s ∷ rs) h k = elim (Bool-cases (before s r)) [
    | inl e ↦ rw e (k.0, All-insert_sorted before r rs h k.1)
    | inr e ↦ rw e (h, k)
  ]

  pub All-order_by : (before : A → A → Bool) (rs : List A) → All P rs → All P (order_by before rs)
  unfolding order_by
  All-order_by before [] h = tt
  All-order_by before (r ∷ rs) h =
      All-insert_sorted before r (order_by before rs) h.0 (All-order_by before rs h.1)

  -- What holds of every row of a sorted list holds of every row.
  All-insert_sorted_back :
      (before : A → A → Bool) (r : A) (rs : List A)
      → All P (insert_sorted before r rs)
      → P r × All P rs
  unfolding insert_sorted
  All-insert_sorted_back before r [] h = h
  All-insert_sorted_back before r (s ∷ rs) h = elim (Bool-cases (before s r)) [
    | inr first ↦ rw first at h
    | inl later ↦
        let both : All P (s ∷ insert_sorted before r rs) = rw later at h in
        let (here, rest) = All-insert_sorted_back before r rs both.1 in (here, (both.0, rest))
  ]

  pub All-order_by_back :
      (before : A → A → Bool) (rs : List A) → All P (order_by before rs) → All P rs
  unfolding order_by
  All-order_by_back before [] h = tt
  All-order_by_back before (r ∷ rs) h =
      let (here, rest) = All-insert_sorted_back before r (order_by before rs) h in
      (here, All-order_by_back before rs rest)

-- The rows that a query gives pass its test.
pub All-select_self {ℓ} :
    {A : Type ℓ} (p : A → Bool) (rs : List A) → All (λ r. p r ≡ true) (select p rs)
All-select_self p [] = tt
All-select_self p (r ∷ rs) = elim (Bool-cases (p r)) [
  | inl e ↦ rw e (e, All-select_self p rs)
  | inr e ↦ rw e (All-select_self p rs)
]

-- A row that passes the test is among those that the query gives.
pub In-select :
    {A : Type 0} → (p : A → Bool) (m : A) (rs : List A) → In m rs → p m ≡ true → In m (select p rs)
In-select p m [] i h = elim i [ ]
In-select p m (r ∷ rs) (inl e) h =
    let hit : p r ≡ true = subst (λ x. p x ≡ true) e h in rw hit (inl e)
In-select p m (r ∷ rs) (inr i) h = elim (Bool-cases (p r)) [
  | inl hit ↦ rw hit (inr (In-select p m rs i h))
  | inr miss ↦ rw miss (In-select p m rs i h)
]

module _ {ℓ} {A : Type ℓ} (f : A → ℕ) where
  sum_by-insert_sorted :
      (before : A → A → Bool) (r : A) (rs : List A)
      → sum_by f (insert_sorted before r rs) ≡ f r + sum_by f rs
  unfolding insert_sorted
  sum_by-insert_sorted before r [] = refl
  sum_by-insert_sorted before r (s ∷ rs) = elim (Bool-cases (before s r)) [
    | inl e ↦ rw e (omega (arith, sum_by-insert_sorted before r rs))
    | inr e ↦ rw e refl
  ]

  pub sum_by-order_by :
      (before : A → A → Bool) (rs : List A) → sum_by f (order_by before rs) ≡ sum_by f rs
  unfolding order_by
  sum_by-order_by before [] = refl
  sum_by-order_by before (r ∷ rs) =
      omega (arith, sum_by-insert_sorted before r (order_by before rs), sum_by-order_by before rs)

module _ {ℓ} {A : Type ℓ} where
  pub All-take {κ} : (P : A → Type κ) (n : ℕ) (rs : List A) → All P rs → All P (take n rs)
  All-take P zero rs h = tt
  All-take P (suc n) [] h = tt
  All-take P (suc n) (r ∷ rs) h = (h.0, All-take P n rs h.1)

  pub length-update : (p : A → Bool) (f : A → A) (rs : List A) → length (update p f rs) ≡ length rs
  length-update p f [] = refl
  length-update p f (r ∷ rs) = ap suc (length-update p f rs)

  -- An update that leaves the answer of a test alone leaves the count alone.
  pub count-update :
      (q p : A → Bool) (f : A → A) (rs : List A)
      → All (λ r. p r ≡ true → q (f r) ≡ q r) rs
      → count q (update p f rs) ≡ count q rs
  count-update q p f [] h = refl
  count-update q p f (r ∷ rs) h = elim (Bool-cases (p r)) [
    | inl e ↦ rw e (rw (h.0 e) (omega (arith, count-update q p f rs h.1)))
    | inr e ↦ rw e (omega (arith, count-update q p f rs h.1))
  ]

  length-insert_sorted :
      (before : A → A → Bool) (r : A) (rs : List A)
      → length (insert_sorted before r rs) ≡ suc (length rs)
  unfolding insert_sorted
  length-insert_sorted before r [] = refl
  length-insert_sorted before r (s ∷ rs) = elim (Bool-cases (before s r)) [
    | inl e ↦ rw e (ap suc (length-insert_sorted before r rs))
    | inr e ↦ rw e refl
  ]

  pub length-order_by :
      (before : A → A → Bool) (rs : List A) → length (order_by before rs) ≡ length rs
  unfolding order_by
  length-order_by before [] = refl
  length-order_by before (r ∷ rs) =
      omega (arith, length-insert_sorted before r (order_by before rs), length-order_by before rs)
