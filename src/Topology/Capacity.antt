-- ===== src/Topology/Capacity.antt =====
-- topology.py: `estimate_capacity_by_profile`. The answer is a dict, as the list of its items in the
-- order in which they are put in; the code sorts them by profile at the end.
use ds4_on_spark.Prelude.{
  ℕ, ◌+◌, min, String, Bool, not, ◌&&◌, Option, none, some, List, [], ◌∷◌, map, any, ◌==◌,
  string-Eq, if◌then◌else◌,
}
use ds4_on_spark.Sql.{select}
use ds4_on_spark.Pipelines.Service.{PipelineService}
use ds4_on_spark.Topology.{SparkNode, elem, find_node, look}
use ds4_on_spark.Topology.Groups.{SparkTopology}

abbrev pub Capacities : Type 0
Capacities = List (String × ℕ)

-- d[k] = v
abbrev put : String → ℕ → Capacities → Capacities
put k v [] = (k, v) ∷ []
put k v ((j, w) ∷ rest) = if j == k then (j, v) ∷ rest else (j, w) ∷ put k v rest

abbrev has : String → Capacities → Bool
has k = any λ (x : String × ℕ). x.0 == k

abbrev capacity_of : Option SparkNode → ℕ
capacity_of none = 0
capacity_of (some n) = n.default_capacity

-- min(… for node_id in node_ids), of a list that is not empty
abbrev least : List ℕ → ℕ
least [] = 0
least (n ∷ []) = n
least (n ∷ m ∷ rest) = min n (least (m ∷ rest))

abbrev of_services : List PipelineService → Capacities → Capacities
of_services [] d = d
of_services (s ∷ rest) d = of_services rest (put s.profile_id s.max_batch_size d)

abbrev of_groups :
    List SparkNode → (grouped : List String) → List (String × List String) → Capacities → Capacities
of_groups nodes grouped [] d = d
of_groups nodes grouped ((profile_id, ids) ∷ rest) d = of_groups nodes grouped rest (
    if elem profile_id grouped
    then put profile_id (least (map (λ id. capacity_of (find_node id nodes)) ids)) d
    else d)

abbrev or_zero : Option ℕ → ℕ
or_zero none = 0
or_zero (some n) = n

-- The body of the last two loops.
abbrev add_resident :
    (grouped : List String) (capacity : ℕ) (profile_id : String) → Capacities → Capacities
add_resident grouped capacity profile_id d =
    if not (elem profile_id grouped) && has profile_id d
    then d
    else if not (elem profile_id grouped)
    then put profile_id (or_zero (look profile_id d) + capacity) d
    else d

abbrev add_residents :
    (grouped : List String) (capacity : ℕ) → List String → Capacities → Capacities
add_residents grouped capacity [] d = d
add_residents grouped capacity (p ∷ rest) d =
    add_residents grouped capacity rest (add_resident grouped capacity p d)

abbrev of_nodes : (grouped : List String) → List SparkNode → Capacities → Capacities
of_nodes grouped [] d = d
of_nodes grouped (n ∷ rest) d =
    of_nodes grouped rest (add_residents grouped n.default_capacity n.resident_profiles d)

unfoldable pub estimate_capacity_by_profile : SparkTopology → Capacities
estimate_capacity_by_profile t =
    let served = of_services t.pipeline_services [] in
    let grouped =
      select (λ p. not (has p served))
        (map (λ (g : String × List String). g.0) t.profile_node_groups) in
    of_nodes grouped t.nodes (of_groups t.nodes grouped t.profile_node_groups served)
