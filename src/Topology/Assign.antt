-- ===== src/Topology/Assign.antt =====
-- topology.py: `assign_profile`, with the choice of a node by its load.
use ds4_on_spark.Prelude.{
  ℕ, ◌*◌, String, Bool, true, false, ◌&&◌, ◌||◌, Option, none, some, List, [], ◌∷◌, length, ltb,
  head?, ◌==◌, nat-Eq, string-Eq, if◌then◌else◌, Result, ok, value_error,
}
use ds4_on_spark.Sql.{select, order_by}
use ds4_on_spark.Pipelines.Service.{PipelineService}
use ds4_on_spark.Queue.Submit.Rows.{Load}
use ds4_on_spark.Topology.{SparkNode, elem, supports_profile, find_node, look}
use ds4_on_spark.Topology.Groups.{SparkTopology}

pub data Reason : Type 0 where
  pipeline_service : Reason
  resident_profile_group : Reason
  resident_profile_immediate : Reason
  resident_profile : Reason
  dynamic_load_experiment_lane : Reason

pub record SparkAssignment : Type 0 where
  pub profile_id : String
  pub node_id : String
  pub resident : Bool
  pub dynamic_load : Bool
  pub reason : Reason
  pub node_ids : List String
  pub service_id : Option String
  pub api_base_url : Option String
  pub compute_domain : Option String

unfoldable pub nodes_for_profile : SparkTopology → String → List SparkNode
nodes_for_profile t profile_id = select (supports_profile profile_id) t.nodes

abbrev pub service_for : String → List PipelineService → Option PipelineService
service_for profile_id [] = none
service_for profile_id (s ∷ rest) =
    if s.profile_id == profile_id then some s else service_for profile_id rest

-- No two services serve one profile, so the first is the only one.
unfoldable pub pipeline_service_for_profile : SparkTopology → String → Option PipelineService
pipeline_service_for_profile t profile_id = service_for profile_id t.pipeline_services

-- current_load.get(node_id, 0)
abbrev pub load_on : Load → SparkNode → ℕ
load_on load n = elim (look n.node_id load) [ none ↦ 0 | some k ↦ k ]

-- The order of (load / capacity, node_id): the fractions by their cross products. `text_before` is
-- `<` on strings.
abbrev pub less_loaded :
    (text_before : String → String → Bool) → Load → SparkNode → SparkNode → Bool
less_loaded text_before load m n =
    let left = load_on load m * n.default_capacity in
    let right = load_on load n * m.default_capacity in
    ltb left right || left == right && text_before m.node_id n.node_id

-- The nodes that come into question.
unfoldable pub preferred_nodes : (immediate : Bool) → Load → List SparkNode → List SparkNode
preferred_nodes immediate load nodes =
    let reserved = select (λ (n : SparkNode). n.immediate_reserved) nodes in
    let production = select (λ (n : SparkNode). elem "production" n.roles) nodes in
    let with_room =
      select (λ (n : SparkNode). ltb (load_on load n) n.default_capacity) production in
    let first = if immediate then reserved else with_room in
    if length first == 0 then nodes else first

unfoldable pub choose_resident_node :
    (text_before : String → String → Bool)
    → (immediate : Bool) → Load
    → List SparkNode
    → Option SparkNode
choose_resident_node text_before immediate load nodes =
    head? (order_by (less_loaded text_before load) (preferred_nodes immediate load nodes))

abbrev pub first_dynamic :
    (text_before : String → String → Bool) → List SparkNode → Option SparkNode
first_dynamic text_before nodes = head? (
    order_by (λ (m n : SparkNode). text_before m.node_id n.node_id)
      (select (λ (n : SparkNode). n.dynamic_load) nodes))

abbrev pub or_this : Option SparkNode → Option SparkNode → Option SparkNode
or_this none o = o
or_this (some n) o = some n

-- The node that the policy names, if it is one, else the first node for dynamic loads.
unfoldable pub experimental_node :
    (text_before : String → String → Bool) → SparkTopology → Option SparkNode
experimental_node text_before t =
    let dynamic = first_dynamic text_before t.nodes in
    elim t.routing_policy.experimental_node_id [
      | none ↦ dynamic
      | some id ↦ if id == "" then dynamic else or_this (find_node id t.nodes) dynamic
    ]

abbrev pub on_service : String → PipelineService → SparkAssignment
on_service profile_id s = record {
  profile_id = profile_id;
  node_id = s.entry_node_id;
  resident = true;
  dynamic_load = false;
  reason = Reason.pipeline_service;
  node_ids = s.node_ids;
  service_id = some s.service_id;
  api_base_url = some s.api_base_url;
  compute_domain = some s.compute_domain;
}

abbrev pub on_nodes :
    String
    → (node_id : String) (node_ids : List String) (resident dynamic_load : Bool) → Reason
    → SparkAssignment
on_nodes profile_id node_id node_ids resident dynamic_load reason = record {
  profile_id = profile_id;
  node_id = node_id;
  resident = resident;
  dynamic_load = dynamic_load;
  reason = reason;
  node_ids = node_ids;
  service_id = none;
  api_base_url = none;
  compute_domain = none;
}

-- A group that has no entry node is reached under the names of its nodes, joined by "+".
unfoldable pub joined : List String → (join : List String → String) → Option String → String
joined node_ids join none = join node_ids
joined node_ids join (some ingress) = ingress

-- Python's `<` on strings, and "+".join(…).
pub record Names : Type 0 where
  pub text_before : String → String → Bool
  pub join : List String → String

-- The choice among the nodes where the profile is resident, `chosen` of `eligible`.
abbrev pub on_resident : String → (immediate : Bool) → SparkNode → SparkAssignment
on_resident profile_id immediate n = on_nodes profile_id n.node_id (n.node_id ∷ []) true false (
    if immediate && n.immediate_reserved
    then Reason.resident_profile_immediate
    else Reason.resident_profile)

unfoldable pub assign_dynamic :
    Names → SparkTopology → (profile_id : String) → Result SparkAssignment
assign_dynamic names t profile_id =
    let nobody : Result SparkAssignment = value_error "no spark node has resident profile" in
    if t.routing_policy.allow_dynamic_load_for_unmatched_profiles
    then elim (experimental_node names.text_before t) [
      | none ↦ nobody
      | some n ↦ ok (
          on_nodes profile_id n.node_id (n.node_id ∷ []) false true
            Reason.dynamic_load_experiment_lane)
    ]
    else nobody

unfoldable pub assign_resident :
    Names → SparkTopology → (profile_id : String) (immediate : Bool) → Load → Result SparkAssignment
assign_resident names t profile_id immediate load =
    elim (choose_resident_node names.text_before immediate load (nodes_for_profile t profile_id)) [
      | some n ↦ ok (on_resident profile_id immediate n)
      | none ↦ assign_dynamic names t profile_id
    ]

unfoldable pub assign_profile :
    Names → SparkTopology → (profile_id : String) (immediate : Bool) → Load → Result SparkAssignment
assign_profile names t profile_id immediate load =
    elim (pipeline_service_for_profile t profile_id) [
      | some s ↦ ok (on_service profile_id s)
      | none ↦ elim (look profile_id t.profile_node_groups) [
        | some (n ∷ more) ↦ ok (
            on_nodes profile_id
              (joined (n ∷ more) names.join (look profile_id t.profile_group_ingress)) (n ∷ more)
              true false Reason.resident_profile_group)
        | _ ↦ assign_resident names t profile_id immediate load
      ]
    ]
