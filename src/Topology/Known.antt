-- ===== src/Topology/Known.antt =====
-- topology.py: the nodes that an assignment names are nodes of the topology.
use ds4_on_spark.Prelude.{
  ◌≤◌, String, Bool, true, false, not, Option, none, some, List, [], ◌∷◌, All, any, length, ◌==◌,
  nat-Eq, string-Eq, ◌≡◌, subst, arith, inl, inr, Option-cases, raise_if, ok, >>=-eq-ok, >>-eq-ok,
  raise_if-eq-ok, ok_injective,
}
use ds4_on_spark.Pipelines.Service.{Strings}
use ds4_on_spark.Pipelines.Service.Valid.{IsService}
use ds4_on_spark.Pipelines.Load.{Distinct, load_pipeline_services, load_pipeline_services-Distinct}
use ds4_on_spark.Topology.{SparkNode, elem, find_node, node_ids_of, look}
use ds4_on_spark.Topology.Groups.{
  RoutingPolicy, SparkTopology, RawGroups, lists_profile, check_group, check_groups, check_ingress,
  load_profile_node_groups, load_profile_group_ingress, spark_topology,
}

-- A node that the topology has.
abbrev pub Known : List SparkNode → String → Type 0
Known nodes id = elem id (node_ids_of nodes) ≡ true

-- A group: some known nodes, each of which lists the profile.
pub record IsGroup (nodes : List SparkNode) (g : String × List String) : Type 0 where
  pub filled : 1 ≤ length g.1
  pub known : All (Known nodes) g.1
  pub resident : All (λ n. lists_profile g.0 (find_node n nodes) ≡ true) g.1

none_fails :
    (p : String → Bool) (xs : List String)
    → any (λ x. not (p x)) xs ≡ false
    → All (λ x. p x ≡ true) xs
none_fails p [] h = tt
none_fails p (x ∷ xs) h = (ground (arith, h), none_fails p xs (ground (arith, h)))

check_group-IsGroup :
    (nodes : List SparkNode) (profile_id : String) (raw : Option (List String)) (ids : List String)
    → check_group nodes profile_id raw ≡ ok ids
    → IsGroup nodes (profile_id, ids)
unfolding check_group
check_group-IsGroup nodes profile_id none ids h = cc h
check_group-IsGroup nodes profile_id (some node_ids) ids h =
    let (h2, same_ids) = >>-eq-ok _ _ h in
    let (h1, resident) = >>-eq-ok _ _ h2 in
    let (filled, known) = >>-eq-ok _ _ h1 in
    let some_node = raise_if-eq-ok (length node_ids == 0) _ filled in
    subst (λ l. IsGroup nodes (profile_id, l)) (ok_injective same_ids)
      (record {
        filled = ground (arith, some_node);
        known = none_fails (λ n. elem n (node_ids_of nodes)) node_ids (raise_if-eq-ok _ _ known);
        resident =
            none_fails (λ n. lists_profile profile_id (find_node n nodes)) node_ids
              (raise_if-eq-ok _ _ resident);
      })

check_groups-IsGroup :
    (nodes : List SparkNode) (raw : List (String × Option (List String)))
    (groups : List (String × List String))
    → check_groups nodes raw ≡ ok groups
    → All (IsGroup nodes) groups
unfolding check_groups
check_groups-IsGroup nodes [] groups h = subst (All (IsGroup nodes)) (ok_injective h) tt
check_groups-IsGroup nodes ((profile_id, raw) ∷ rest) groups h =
    let (ids, checked, h1) = >>=-eq-ok (check_group nodes profile_id raw) _ h in
    let (others, checked_rest, same_groups) = >>=-eq-ok (check_groups nodes rest) _ h1 in
    subst (All (IsGroup nodes)) (ok_injective same_groups) (
      check_group-IsGroup nodes profile_id raw ids checked,
      check_groups-IsGroup nodes rest others checked_rest,
    )

-- The entry node of a group is one of the group's nodes.
abbrev pub EntersGroup : List (String × List String) → String × String → Type 0
EntersGroup groups e = (ids : List String) × (look e.0 groups ≡ some ids) × (elem e.1 ids ≡ true)

check_ingress-EntersGroup :
    (groups : List (String × List String)) (raw out : List (String × String))
    → check_ingress groups raw ≡ ok out
    → All (EntersGroup groups) out
unfolding check_ingress
check_ingress-EntersGroup groups [] out h = subst (All (EntersGroup groups)) (ok_injective h) tt
check_ingress-EntersGroup groups ((profile_id, node_id) ∷ rest) out h =
    elim (Option-cases (look profile_id groups)) [
      | inl missing ↦ cc (rw (check_ingress, missing) at h)
      | inr (ids, found) ↦
          let (inside, h1) =
            >>-eq-ok
              (raise_if (not (elem node_id ids)) "profile node group ingress is not in group") _
              (rw (check_ingress, found) at h) in
          let (others, checked, made) = >>=-eq-ok (check_ingress groups rest) _ h1 in
          let in_group = raise_if-eq-ok (not (elem node_id ids)) _ inside in
          subst (All (EntersGroup groups)) (ok_injective made) (
            (ids, found, ground (arith, in_group)),
            check_ingress-EntersGroup groups rest others checked,
          )
    ]

load_ingress-EntersGroup :
    (raw : Option (List (String × String))) (groups : List (String × List String))
    (out : List (String × String))
    → load_profile_group_ingress raw groups ≡ ok out
    → All (EntersGroup groups) out
unfolding load_profile_group_ingress
load_ingress-EntersGroup none groups out h = cc h
load_ingress-EntersGroup (some raw) groups out h = check_ingress-EntersGroup groups raw out h

-- What the constructor promises.
pub record IsTopology (t : SparkTopology) : Type 0 where
  pub distinct : Distinct t.pipeline_services
  pub services : All (IsService (node_ids_of t.nodes)) t.pipeline_services
  pub groups : All (IsGroup t.nodes) t.profile_node_groups
  pub ingress : All (EntersGroup t.profile_node_groups) t.profile_group_ingress

load_groups-IsGroup :
    (raw : RawGroups) (nodes : List SparkNode) (groups : List (String × List String))
    → load_profile_node_groups raw nodes ≡ ok groups
    → All (IsGroup nodes) groups
unfolding load_profile_node_groups
load_groups-IsGroup none nodes groups h = cc h
load_groups-IsGroup (some raw) nodes groups h = check_groups-IsGroup nodes raw groups h

-- A topology that is accepted has valid services, no two with one id or one profile, and groups of
-- known nodes that list the group's profile, each with an entry node of its own, if any.
pub spark_topology-IsTopology :
    (strings : Strings) (topology_id : String) (nodes : List SparkNode) (policy : RoutingPolicy)
    (t : SparkTopology)
    → spark_topology strings topology_id nodes policy ≡ ok t
    → IsTopology t
unfolding spark_topology
spark_topology-IsTopology strings topology_id nodes policy t h =
    let (_, h1) = >>-eq-ok _ _ h in
    let (_, h2) = >>-eq-ok _ _ h1 in
    let (services, loaded, h3) =
      >>=-eq-ok (load_pipeline_services strings policy.pipeline_services (node_ids_of nodes)) _
        h2 in
    let (groups, grouped, h4) =
      >>=-eq-ok (load_profile_node_groups policy.profile_node_groups nodes) _ h3 in
    let (ingress, entered, made) =
      >>=-eq-ok (load_profile_group_ingress policy.profile_node_group_ingress groups) _ h4 in
    let facts =
      load_pipeline_services-Distinct strings policy.pipeline_services (node_ids_of nodes) services
        loaded in
    subst IsTopology (ok_injective made) (record {
      distinct = facts.0;
      services = facts.1;
      groups = load_groups-IsGroup policy.profile_node_groups nodes groups grouped;
      ingress = load_ingress-EntersGroup policy.profile_node_group_ingress groups ingress entered;
    })
