-- ===== src/Topology/Assigned.antt =====
-- topology.py: what `assign_profile` answers.
use ds4_on_spark.Prelude.{
  ◌≤◌, String, Bool, true, false, List, [], ◌∷◌, All, All-In, All-map, length, nat-Eq, string-Eq,
  ◌≡◌, refl, sym, ◌∙◌, subst, some_injective, ==_self, none, some, ◌⊎◌, inl, inr, Bool-cases,
  Option-cases, arith, Result, ok, ok_injective,
}
use ds4_on_spark.Pipelines.Service.Valid.{IsService}
use ds4_on_spark.Queue.Submit.Rows.{Load}
use ds4_on_spark.Topology.{elem, node_ids_of, look}
use ds4_on_spark.Topology.Groups.{SparkTopology}
use ds4_on_spark.Topology.Known.{Known, IsGroup, EntersGroup, IsTopology}
use ds4_on_spark.Topology.Assign.{
  Names, Reason, SparkAssignment, service_for, on_nodes, joined, nodes_for_profile,
  choose_resident_node, experimental_node, assign_dynamic, assign_resident, assign_profile,
  pipeline_service_for_profile,
}
use ds4_on_spark.Topology.Hosts.{Hosts, In-Known, lists-Hosts, service_for-In, look-In}
use ds4_on_spark.Topology.Chosen.{chosen-Hosts, experimental_node-In}

-- The node to which the request goes: one of those assigned, or, for a group with no entry node, the
-- names of the group's nodes joined.
abbrev pub Entered : Names → SparkTopology → (profile_id : String) → SparkAssignment → Type 0
Entered names t profile_id a =
    (elem a.node_id a.node_ids ≡ true)
    ⊎ ((a.reason ≡ Reason.resident_profile_group)
        × (look profile_id t.profile_group_ingress ≡ none)
        × (a.node_id ≡ names.join a.node_ids))

-- An assignment of the profile within the topology.
pub record Assigned (names : Names) (t : SparkTopology) (profile_id : String) (a : SparkAssignment)
    : Type 0 where
  pub profiled : a.profile_id ≡ profile_id
  pub placed : 1 ≤ length a.node_ids
  pub known : All (Known t.nodes) a.node_ids
  pub entered : Entered names t profile_id a
  pub hosted :
      (a.reason ≡ Reason.pipeline_service)
      ⊎ ((a.dynamic_load ≡ true) ⊎ All (Hosts t.nodes profile_id) a.node_ids)

own : (id : String) → elem id (id ∷ []) ≡ true
own id = rw (==_self id) refl

assign_dynamic-Assigned :
    (names : Names) (t : SparkTopology) (profile_id : String) (a : SparkAssignment)
    → assign_dynamic names t profile_id ≡ ok a
    → Assigned names t profile_id a
unfolding assign_dynamic
assign_dynamic-Assigned names t profile_id a h =
    elim (Bool-cases t.routing_policy.allow_dynamic_load_for_unmatched_profiles) [
      | inr barred ↦ cc (rw barred at h)
      | inl allowed ↦ elim (Option-cases (experimental_node names.text_before t)) [
        | inl nobody ↦ cc (rw (nobody, allowed) at h)
        | inr (n, found) ↦
            subst (Assigned names t profile_id) (ok_injective (rw (found, allowed) at h)) (record {
              profiled = refl;
              placed = omega arith;
              known = (In-Known n t.nodes (experimental_node-In names.text_before t n found), tt);
              entered = inl (own n.node_id);
              hosted = inr (inl refl);
            })
      ]
    ]

assign_resident-Assigned :
    (names : Names) (t : SparkTopology) (profile_id : String) (immediate : Bool) (load : Load)
    (a : SparkAssignment)
    → assign_resident names t profile_id immediate load ≡ ok a
    → Assigned names t profile_id a
unfolding assign_resident
assign_resident-Assigned names t profile_id immediate load a h =
    elim (Option-cases
      (choose_resident_node names.text_before immediate load (nodes_for_profile t profile_id))) [
        | inl nobody ↦
            assign_dynamic-Assigned names t profile_id a (rw (assign_resident, nobody) at h)
        | inr (n, chosen) ↦
            let (i, supports) = chosen-Hosts names t profile_id immediate load n chosen in
            subst (Assigned names t profile_id) (ok_injective (rw (assign_resident, chosen) at h))
              (record {
                profiled = refl;
                placed = omega arith;
                known = (In-Known n t.nodes i, tt);
                entered = inl (own n.node_id);
                hosted = inr (inr ((n, i, refl, supports), tt));
              })
      ]

on_group :
    (names : Names) (t : SparkTopology) (profile_id : String) (ids : List String)
    → IsTopology t
    → look profile_id t.profile_node_groups ≡ some ids
    → let node_id = joined ids names.join (look profile_id t.profile_group_ingress) in
      Assigned names t profile_id
        (on_nodes profile_id node_id ids true false Reason.resident_profile_group)
unfolding joined
on_group names t profile_id ids v found = record {
  profiled = refl;
  placed = g.filled;
  known = g.known;
  entered = by_ingress (Option-cases (look profile_id t.profile_group_ingress));
  hosted = inr (
      inr (
        All-map _ (Hosts t.nodes profile_id) ids (λ id. lists-Hosts t.nodes profile_id id)
          g.resident));
}
  where
    g : IsGroup t.nodes (profile_id, ids)
    g =
        All-In (IsGroup t.nodes) (profile_id, ids) t.profile_node_groups v.groups
          (look-In profile_id t.profile_node_groups ids found)

    by_ingress :
        (look profile_id t.profile_group_ingress ≡ none)
          ⊎ ((n : String) × (look profile_id t.profile_group_ingress ≡ some n))
        → Entered names t profile_id (
            on_nodes profile_id
              (joined ids names.join (look profile_id t.profile_group_ingress))
              ids
              true
              false
              Reason.resident_profile_group)
    by_ingress (inl e) = inr (refl, e, rw e refl)
    by_ingress (inr (n, e)) =
        let (others, same, inside) =
          All-In (EntersGroup t.profile_node_groups) (profile_id, n) t.profile_group_ingress
            v.ingress (look-In profile_id t.profile_group_ingress n e) in
        let one : others ≡ ids = some_injective (sym same ∙ found) in
        inl (rw e (subst (λ (l : List String). elem n l ≡ true) one inside))

-- On an accepted topology an assignment is for the profile that was asked for and has at least one
-- node; its nodes are all known, and list the profile unless a pipeline service or the lane for
-- dynamic loads was chosen. It goes to one of these nodes, but for a group that has no entry node:
-- there it goes to the names of the nodes, joined.
pub assign_profile-Assigned :
    (names : Names) (t : SparkTopology) (profile_id : String) (immediate : Bool) (load : Load)
    (a : SparkAssignment)
    → IsTopology t
    → assign_profile names t profile_id immediate load ≡ ok a
    → Assigned names t profile_id a
unfolding assign_profile pipeline_service_for_profile
assign_profile-Assigned names t profile_id immediate load a v h =
    elim (Option-cases (service_for profile_id t.pipeline_services)) [
      | inr (s, found) ↦
          let valid =
            All-In (IsService (node_ids_of t.nodes)) s t.pipeline_services v.services
              (service_for-In profile_id t.pipeline_services s found) in
          subst (Assigned names t profile_id) (ok_injective (rw (assign_profile, found) at h))
            (record {
              profiled = refl;
              placed = valid.placed;
              known = valid.known;
              entered = inl valid.entered;
              hosted = inl refl;
            })
      | inl no_service ↦ elim (Option-cases (look profile_id t.profile_node_groups)) [
        | inl no_group ↦
            assign_resident-Assigned names t profile_id immediate load a
              (rw (assign_profile, no_service, no_group) at h)
        | inr (ids, found) ↦ by_group ids found (rw (assign_profile, no_service, found) at h)
      ]
    ]
  where
    by_group :
        (ids : List String)
        → look profile_id t.profile_node_groups ≡ some ids
        → (elim ids as (λ _. Result SparkAssignment) [
          | n ∷ more ↦ ok (
              on_nodes profile_id
                (joined (n ∷ more) names.join (look profile_id t.profile_group_ingress))
                (n ∷ more)
                true
                false
                Reason.resident_profile_group)
          | [] ↦ assign_resident names t profile_id immediate load
        ])
          ≡ ok a
        → Assigned names t profile_id a
    by_group [] found e = assign_resident-Assigned names t profile_id immediate load a e
    by_group (n ∷ more) found e =
        subst (Assigned names t profile_id) (ok_injective e)
          (on_group names t profile_id (n ∷ more) v found)
