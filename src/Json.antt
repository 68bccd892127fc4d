-- ===== src/Json.antt =====
-- JSON values as Python's json module reads them.
use ds4_on_spark.Prelude.{
  ◌≡◌, refl, ap, false, inl, inr, Bool-cases, eq_iff, ==_self, String, Bool, Option, none, some,
  List, [], ◌∷◌, ◌==◌, string-Eq, if◌then◌else◌,
}
use ds4_on_spark.Prelude.Int.{ℤ}

-- `real` holds the literal's text: its value is used only through a conversion.
mutual
  pub data Json : Type 0 where
    null : Json
    bool : Bool → Json
    num : ℤ → Json
    real : String → Json
    str : String → Json
    arr : Items → Json
    obj : Fields → Json

  pub data Items : Type 0 where
    nil : Items
    cons : Json → Items → Items

  pub data Fields : Type 0 where
    end : Fields
    field : String → Json → Fields → Fields

abbrev fields : List (String × Json) → Fields
fields [] = end
fields ((k, v) ∷ rest) = field k v (fields rest)

-- A dict display.
abbrev pub dict : List (String × Json) → Json
dict l = obj (fields l)

abbrev lookup : String → Fields → Option Json
lookup k end = none
lookup k (field j v rest) = if j == k then some v else lookup k rest

-- `d.get(k)` for a dict; None for any other value, and for a missing key.
unfoldable pub get : Json → String → Option Json
get (obj fs) k = lookup k fs
get _ k = none

-- `d[k] = v`: the key keeps its place, or goes to the end.
set_field : String → Json → Fields → Fields
set_field k v end = field k v end
set_field k v (field j w rest) = if j == k then field j v rest else field j w (set_field k v rest)

-- `dict(d, k=v)`.
unfoldable pub set : Json → String → Json → Json
unfolding set_field
set (obj fs) k v = obj (set_field k v fs)
set j k v = j

unfoldable pub drop_field : String → Fields → Fields
drop_field k end = end
drop_field k (field j v rest) = if j == k then drop_field k rest else field j v (drop_field k rest)

-- `d.pop(k, None)`.
unfoldable pub pop : Json → String → Json
unfolding drop_field
pop (obj fs) k = obj (drop_field k fs)
pop j k = j

lookup-drop_field : (k : String) (fs : Fields) → lookup k (drop_field k fs) ≡ none
unfolding drop_field
lookup-drop_field k end = refl
lookup-drop_field k (field j v rest) = elim (Bool-cases (j == k)) [
  | inl same_key ↦ rw same_key (lookup-drop_field k rest)
  | inr other ↦ rw (other, other) (lookup-drop_field k rest)
]

pub get-pop : (j : Json) (k : String) → get (pop j k) k ≡ none
unfolding get pop
get-pop null k = refl
get-pop (bool b) k = refl
get-pop (num n) k = refl
get-pop (real t) k = refl
get-pop (str s) k = refl
get-pop (arr xs) k = refl
get-pop (obj fs) k = lookup-drop_field k fs

lookup-drop_other :
    (k h : String) (fs : Fields) → (k == h) ≡ false → lookup h (drop_field k fs) ≡ lookup h fs
unfolding drop_field
lookup-drop_other k h end e = refl
lookup-drop_other k h (field j v rest) e = elim (Bool-cases (j == k)) [
  | inl same_key ↦
      let same_text : j ≡ k = (eq_iff j k).0 same_key in
      let other : (j == h) ≡ false = rw same_text e in
      rw (same_key, other) (lookup-drop_other k h rest e)
  | inr kept ↦ rw kept (ap (λ o. if j == h then some v else o) (lookup-drop_other k h rest e))
]

-- The other keys keep their values.
pub get-pop_other : (j : Json) (k h : String) → (k == h) ≡ false → get (pop j k) h ≡ get j h
unfolding get pop
get-pop_other null k h e = refl
get-pop_other (bool b) k h e = refl
get-pop_other (num n) k h e = refl
get-pop_other (real t) k h e = refl
get-pop_other (str s) k h e = refl
get-pop_other (arr xs) k h e = refl
get-pop_other (obj fs) k h e = lookup-drop_other k h fs e

lookup-set_field : (k : String) (v : Json) (fs : Fields) → lookup k (set_field k v fs) ≡ some v
unfolding set_field
lookup-set_field k v end = rw (==_self k) refl
lookup-set_field k v (field j w rest) = elim (Bool-cases (j == k)) [
  | inl same_key ↦ rw (same_key, same_key) refl
  | inr other ↦ rw (other, other) (lookup-set_field k v rest)
]

lookup-set_other :
    (k h : String) (v : Json) (fs : Fields)
    → (k == h) ≡ false
    → lookup h (set_field k v fs) ≡ lookup h fs
unfolding set_field
lookup-set_other k h v end e = rw e refl
lookup-set_other k h v (field j w rest) e = elim (Bool-cases (j == k)) [
  | inl same_key ↦
      let same_text : j ≡ k = (eq_iff j k).0 same_key in
      let other : (j == h) ≡ false = rw same_text e in rw (same_key, other) refl
  | inr kept ↦ rw kept (ap (λ o. if j == h then some w else o) (lookup-set_other k h v rest e))
]

pub get-set_other :
    (j : Json) (k h : String) (v : Json) → (k == h) ≡ false → get (set j k v) h ≡ get j h
unfolding get set
get-set_other null k h v e = refl
get-set_other (bool b) k h v e = refl
get-set_other (num n) k h v e = refl
get-set_other (real t) k h v e = refl
get-set_other (str s) k h v e = refl
get-set_other (arr xs) k h v e = refl
get-set_other (obj fs) k h v e = lookup-set_other k h v fs e

pub get-set : (fs : Fields) (k : String) (v : Json) → get (set (obj fs) k v) k ≡ some v
unfolding get set
get-set fs k v = lookup-set_field k v fs

-- A text column that may be NULL.
abbrev pub text : Option String → Json
text none = null
text (some s) = str s
