-- ===== src/Topology/Least.antt =====
-- topology.py: the chosen node is the least loaded of those that come into question.
use native.Mathlib.Nat.{mul_comm, mul_assoc, mul-le-mul_right, le_of_mul-le-mul_right}
use ds4_on_spark.Prelude.{
  ℕ, ◌*◌, ◌≤◌, ◌<◌, String, Bool, true, false, some, In, All-In, All-In_own, length, ltb, ◌==◌,
  string-Eq, if◌then◌else◌, List, [], ◌∷◌, All, All-map, nat-Eq, ◌≡◌, subst, some_injective, inl,
  inr, Bool-cases, arith, head?,
}
use ds4_on_spark.Sql.{select, insert_sorted, order_by}
use ds4_on_spark.Sql.Laws.{
  All-insert_sorted, All-order_by, All-order_by_back, All-select_self, All-select_if, In-select,
}
use ds4_on_spark.Queue.Submit.Rows.{Load}
use ds4_on_spark.Topology.{SparkNode, elem}
use ds4_on_spark.Topology.Assign.{load_on, less_loaded, preferred_nodes, choose_resident_node}
use ds4_on_spark.Topology.Chosen.{All-preferred_nodes, All-head}

-- load(m) / capacity(m) ≤ load(n) / capacity(n)
abbrev pub NoBusier : Load → SparkNode → SparkNode → Type 0
NoBusier load m n = load_on load m * n.default_capacity ≤ load_on load n * m.default_capacity

abbrev pub HasRoom : SparkNode → Type 0
HasRoom n = 1 ≤ n.default_capacity

fractions : (a b c d e f : ℕ) → 1 ≤ d → a * d ≤ c * b → c * f ≤ e * d → a * f ≤ e * b
fractions a b c d e f d_pos first second =
    let left = mul-le-mul_right f first in
    let right = mul-le-mul_right b second in
    le_of_mul-le-mul_right {k = d} (grind (arith, left, right, mul_assoc, mul_comm)) d_pos

module _ (text_before : String → String → Bool) (load : Load) where
  -- The head is no busier than any other.
  Least : List SparkNode → Type 0
  Least [] = Unit {0}
  Least (n ∷ rest) = All (NoBusier load n) rest

  insert-Least :
      (r : SparkNode) (rs : List SparkNode)
      → All HasRoom rs
      → Least rs
      → Least (insert_sorted (less_loaded text_before load) r rs)
  unfolding Least insert_sorted
  insert-Least r [] room least = tt
  insert-Least r (s ∷ rs) room least = elim (Bool-cases (less_loaded text_before load s r)) [
    | inl later ↦ rw later (
        All-insert_sorted (NoBusier load s) (less_loaded text_before load) r rs
          (ground (arith, later)) least)
    | inr first ↦
        let r_first : NoBusier load r s = ground (arith, first) in
        rw first (
          r_first,
          All-map (NoBusier load s) (NoBusier load r) rs
              (λ x s_first.
                fractions (load_on load r) r.default_capacity (load_on load s) s.default_capacity
                  (load_on load x) x.default_capacity room.0 r_first s_first)
              least,
        )
  ]

  order_by-Least :
      (rs : List SparkNode) → All HasRoom rs → Least (order_by (less_loaded text_before load) rs)
  unfolding Least order_by
  order_by-Least [] room = tt
  order_by-Least (r ∷ rs) room =
      insert-Least r (order_by (less_loaded text_before load) rs)
        (All-order_by HasRoom (less_loaded text_before load) rs room.1) (order_by-Least rs room.1)

  head-Least :
      (rs : List SparkNode) (n : SparkNode)
      → Least rs
      → head? rs ≡ some n
      → All (NoBusier load n) rs
  unfolding Least
  head-Least [] n least e = tt
  head-Least (r ∷ rs) n least e =
      subst (λ (m : SparkNode). All (NoBusier load m) (r ∷ rs)) (some_injective e)
        (omega arith, least)

-- The nodes that are wanted first: for an immediate request those kept for such, otherwise those in
-- production with room.
abbrev pub Wanted : (immediate : Bool) → Load → SparkNode → Type 0
Wanted true load n = n.immediate_reserved ≡ true
Wanted false load n = (elem "production" n.roles ≡ true) × (load_on load n < n.default_capacity)

-- A node chosen of `nodes`.
pub record Picked (immediate : Bool) (load : Load) (nodes : List SparkNode) (n : SparkNode)
    : Type 0 where
  pub eligible : In n nodes
  pub wanted : (m : SparkNode) → In m nodes → Wanted immediate load m → Wanted immediate load n
  pub least : (m : SparkNode) → In m nodes → Wanted immediate load m → NoBusier load n m
  pub least_of_all :
      ((m : SparkNode) → In m nodes → ¬ Wanted immediate load m) → All (NoBusier load n) nodes

module _ (immediate : Bool) (load : Load) (nodes : List SparkNode) where
  first_wanted : List SparkNode
  first_wanted =
      if immediate
      then select (λ (n : SparkNode). n.immediate_reserved) nodes
      else select (λ (n : SparkNode). ltb (load_on load n) n.default_capacity)
          (select (λ (n : SparkNode). elem "production" n.roles) nodes)

first_wanted-In :
    (immediate : Bool) (load : Load) (nodes : List SparkNode) (m : SparkNode)
    → In m nodes
    → Wanted immediate load m
    → In m (first_wanted immediate load nodes)
unfolding first_wanted
first_wanted-In true load nodes m i h =
    In-select (λ (n : SparkNode). n.immediate_reserved) m nodes i h
first_wanted-In false load nodes m i (made, room) =
    In-select (λ (n : SparkNode). ltb (load_on load n) n.default_capacity) m _
      (In-select (λ (n : SparkNode). elem "production" n.roles) m nodes i made)
      (ground (arith, room))

first_wanted-Wanted :
    (immediate : Bool) (load : Load) (nodes : List SparkNode)
    → All (Wanted immediate load) (first_wanted immediate load nodes)
unfolding first_wanted
first_wanted-Wanted true load nodes =
    All-select_self (λ (n : SparkNode). n.immediate_reserved) nodes
first_wanted-Wanted false load nodes =
    All-select_if (Wanted false load) (λ (n : SparkNode). ltb (load_on load n) n.default_capacity)
      (select (λ (n : SparkNode). elem "production" n.roles) nodes)
      (All-map (λ (n : SparkNode). elem "production" n.roles ≡ true) _ _
        (λ n made room. (made, ground (arith, room)))
        (All-select_self (λ (n : SparkNode). elem "production" n.roles) nodes))

chosen_of :
    (text_before : String → String → Bool) (load : Load) (preferred : List SparkNode)
    (n : SparkNode)
    → All HasRoom preferred
    → head? (order_by (less_loaded text_before load) preferred) ≡ some n
    → In n preferred × All (NoBusier load n) preferred
chosen_of text_before load preferred n room chosen =
    let before = less_loaded text_before load in
    (
      All-head (λ m. In m preferred) (order_by before preferred) n
          (All-order_by (λ m. In m preferred) before preferred (All-In_own preferred)) chosen,
      All-order_by_back (NoBusier load n) before preferred (
          head-Least text_before load (order_by before preferred) n
            (order_by-Least text_before load preferred room) chosen),
    )

-- The resident node that is chosen is one of the eligible ones. Where any of these is wanted (for an
-- immediate request a node kept for such, otherwise one in production with room) so is the one chosen,
-- and no wanted node has less load for its capacity; where none is, no eligible node has.
pub choose_resident_node-least :
    (text_before : String → String → Bool) (immediate : Bool) (load : Load) (nodes : List SparkNode)
    (n : SparkNode)
    → All HasRoom nodes
    → choose_resident_node text_before immediate load nodes ≡ some n
    → Picked immediate load nodes n
unfolding choose_resident_node preferred_nodes first_wanted
choose_resident_node-least text_before immediate load nodes n room chosen =
    let wanted = first_wanted immediate load nodes in
    let room_first = All-preferred_nodes HasRoom immediate load nodes room in
    let (placed, least) =
      chosen_of text_before load (preferred_nodes immediate load nodes) n room_first chosen in
    let in_nodes =
      All-In (λ m. In m nodes) n (preferred_nodes immediate load nodes)
        (All-preferred_nodes (λ m. In m nodes) immediate load nodes (All-In_own nodes)) placed in
    elim (Bool-cases (length wanted == 0)) [
      | inl empty ↦ record {
        eligible = in_nodes;
        wanted = λ m i h. nobody wanted empty m (first_wanted-In immediate load nodes m i h);
        least = λ m i h. nobody wanted empty m (first_wanted-In immediate load nodes m i h);
        least_of_all = λ none_wanted. rw empty at least;
      }
      | inr some_wanted ↦
          let here : In n wanted = rw some_wanted at placed in
          let best : All (NoBusier load n) wanted = rw some_wanted at least in
          let n_wanted =
            All-In (Wanted immediate load) n wanted (first_wanted-Wanted immediate load nodes)
              here in
          record {
            eligible = in_nodes;
            wanted = λ m i h. n_wanted;
            least = λ m i h.
                All-In (NoBusier load n) m wanted best (first_wanted-In immediate load nodes m i h);
            least_of_all = λ none_wanted. elim (none_wanted n in_nodes n_wanted) [ ];
          }
    ]
  where
    nobody :
        {P : Type 0} → (l : List SparkNode) → (length l == 0) ≡ true → (m : SparkNode) → In m l → P
    nobody [] e m i = elim i [ ]
    nobody (x ∷ l) e m i = let bad : 1 ≤ 0 = ground (arith, e) in elim bad [ ]
