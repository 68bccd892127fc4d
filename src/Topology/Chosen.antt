-- ===== src/Topology/Chosen.antt =====
-- topology.py: where the chosen node comes from.
use ds4_on_spark.Prelude.{
  String, Bool, true, false, Option, none, some, List, [], ◌∷◌, All, All-In_own, In, length, ◌==◌,
  nat-Eq, string-Eq, ◌≡◌, subst, some_injective, inl, inr, Bool-cases, Option-cases, head?,
  if◌then◌else◌, ltb,
}
use ds4_on_spark.Sql.{select, order_by}
use ds4_on_spark.Sql.Laws.{All-select, All-select_self, All-order_by}
use ds4_on_spark.Queue.Submit.Rows.{Load}
use ds4_on_spark.Topology.{SparkNode, elem, supports_profile, find_node}
use ds4_on_spark.Topology.Groups.{SparkTopology}
use ds4_on_spark.Topology.Assign.{
  Names, nodes_for_profile, preferred_nodes, choose_resident_node, experimental_node, first_dynamic,
  or_this, less_loaded, load_on,
}
use ds4_on_spark.Topology.Hosts.{find_node-In}

-- The chosen node is one of those that come into question, and these are eligible.
pub All-head :
    (P : SparkNode → Type 0) (xs : List SparkNode) (n : SparkNode)
    → All P xs
    → head? xs ≡ some n
    → P n
All-head P [] n h e = cc e
All-head P (x ∷ xs) n h e = subst P (some_injective e) h.0

pub All-preferred_nodes :
    (P : SparkNode → Type 0) (immediate : Bool) (load : Load) (nodes : List SparkNode)
    → All P nodes
    → All P (preferred_nodes immediate load nodes)
unfolding preferred_nodes
All-preferred_nodes P immediate load nodes h =
    let production = select (λ (n : SparkNode). elem "production" n.roles) nodes in
    let first : List SparkNode =
      if immediate
      then select (λ n. n.immediate_reserved) nodes
      else select (λ n. ltb (load_on load n) n.default_capacity) production in
    elim (Bool-cases (length first == 0)) [
      | inl empty ↦ rw empty h
      | inr some_node ↦ rw some_node (by_mode immediate)
    ]
  where
    by_mode :
        (b : Bool)
        → All P (
            if b
            then select (λ (n : SparkNode). n.immediate_reserved) nodes
            else select
                (λ (n : SparkNode). ltb (load_on load n) n.default_capacity)
                (select (λ (n : SparkNode). elem "production" n.roles) nodes))
    by_mode true = All-select P (λ (n : SparkNode). n.immediate_reserved) nodes h
    by_mode false =
        All-select P (λ (n : SparkNode). ltb (load_on load n) n.default_capacity)
          (select (λ (n : SparkNode). elem "production" n.roles) nodes)
          (All-select P (λ (n : SparkNode). elem "production" n.roles) nodes h)

pub chosen-Hosts :
    (names : Names) (t : SparkTopology) (profile_id : String) (immediate : Bool) (load : Load)
    (n : SparkNode)
    → choose_resident_node names.text_before immediate load (nodes_for_profile t profile_id)
      ≡ some n
    → In n t.nodes × (supports_profile profile_id n ≡ true)
unfolding choose_resident_node nodes_for_profile
chosen-Hosts names t profile_id immediate load n h =
    let eligible = select (supports_profile profile_id) t.nodes in
    let pick = λ (P : SparkNode → Type 0) (all_eligible : All P eligible).
      All-head P
        (order_by (less_loaded names.text_before load) (preferred_nodes immediate load eligible)) n
        (All-order_by P (less_loaded names.text_before load)
          (preferred_nodes immediate load eligible)
          (All-preferred_nodes P immediate load eligible all_eligible))
        h in
    (
      pick (λ m. In m t.nodes)
          (All-select (λ m. In m t.nodes) (supports_profile profile_id) t.nodes
            (All-In_own t.nodes)),
      pick (λ m. supports_profile profile_id m ≡ true)
          (All-select_self (supports_profile profile_id) t.nodes),
    )

pub experimental_node-In :
    (text_before : String → String → Bool) (t : SparkTopology) (n : SparkNode)
    → experimental_node text_before t ≡ some n
    → In n t.nodes
unfolding experimental_node
experimental_node-In text_before t n h = by_policy t.routing_policy.experimental_node_id h
  where
    from_dynamic : first_dynamic text_before t.nodes ≡ some n → In n t.nodes
    from_dynamic e =
        let before = λ (a b : SparkNode). text_before a.node_id b.node_id in
        All-head (λ m. In m t.nodes)
          (order_by before (select (λ (m : SparkNode). m.dynamic_load) t.nodes)) n
          (All-order_by (λ m. In m t.nodes) before
            (select (λ (m : SparkNode). m.dynamic_load) t.nodes)
            (All-select (λ m. In m t.nodes) (λ (m : SparkNode). m.dynamic_load) t.nodes
              (All-In_own t.nodes)))
          e

    by_policy :
        (o : Option String)
        → (elim o as (λ _. Option SparkNode) [
          | none ↦ first_dynamic text_before t.nodes
          | some id ↦
              if id == ""
              then first_dynamic text_before t.nodes
              else or_this (find_node id t.nodes) (first_dynamic text_before t.nodes)
        ])
          ≡ some n
        → In n t.nodes
    by_policy none e = from_dynamic e
    by_policy (some id) e = elim (Bool-cases (id == "")) [
      | inl unnamed ↦ from_dynamic (rw unnamed at e)
      | inr named ↦ elim (Option-cases (find_node id t.nodes)) [
        | inl missing ↦ from_dynamic (rw (named, missing) at e)
        | inr (m, found) ↦
            let same_node : m ≡ n = some_injective (rw (named, found) at e) in
            subst (λ x. In x t.nodes) same_node (find_node-In id t.nodes m found).0
      ]
    ]
