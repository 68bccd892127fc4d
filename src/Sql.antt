-- ===== src/Sql.antt =====
-- The SQL statements that the queue issues, over a table as the list of its rows.
pub mod Laws
use ds4_on_spark.Prelude.{ℕ, Bool, true, false, List, [], ◌∷◌, map, not, if◌then◌else◌}

module _ {ℓ} {A : Type ℓ} where
  -- select * from t where p
  abbrev pub select : (A → Bool) → List A → List A
  select p [] = []
  select p (r ∷ rs) = if p r then r ∷ select p rs else select p rs

  -- update t set f where p
  abbrev pub update : (A → Bool) → (A → A) → List A → List A
  update p f [] = []
  update p f (r ∷ rs) = (if p r then f r else r) ∷ update p f rs

  -- delete from t where p
  abbrev pub delete : (A → Bool) → List A → List A
  delete p [] = []
  delete p (r ∷ rs) = if p r then delete p rs else r ∷ delete p rs

  unfoldable pub insert_sorted : (A → A → Bool) → A → List A → List A
  insert_sorted before r [] = r ∷ []
  insert_sorted before r (s ∷ rs) = if before s r then s ∷ insert_sorted before r rs else r ∷ s ∷ rs

  -- order by: `before` is the strict order of the clause's columns. Each use ends in the primary
  -- key or in a clock reading, and rows that the clause does not tell apart keep the table's order.
  unfoldable pub order_by : (A → A → Bool) → List A → List A
  unfolding insert_sorted
  order_by before [] = []
  order_by before (r ∷ rs) = insert_sorted before r (order_by before rs)
