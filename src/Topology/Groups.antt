-- ===== src/Topology/Groups.antt =====
-- topology.py: `_load_profile_node_groups`, `_load_profile_group_ingress`, and the constructor.
use ds4_on_spark.Prelude.{
  String, Bool, false, not, ◌||◌, Option, none, some, List, [], ◌∷◌, any, length, ◌==◌, nat-Eq,
  string-Eq, if◌then◌else◌, Result, ok, value_error, raise_if, ◌>>=◌, ◌>>◌,
}
use ds4_on_spark.Pipelines.Service.{Strings, PipelineService}
use ds4_on_spark.Pipelines.Load.{RawServices, load_pipeline_services}
use ds4_on_spark.Pipelines.Service.Stages.{PipelineStage, stage_for_node}
use ds4_on_spark.Sql.{select}
use ds4_on_spark.Topology.{SparkNode, elem, supports_profile, find_node, node_ids_of, look}

-- A value of the routing policy: an object or something else; within the groups, a list or something
-- else.
abbrev pub RawGroups : Type 0
RawGroups = Option (List (String × Option (List String)))

-- What the topology reads of `routing_policy`; a missing object is an empty one.
pub record RoutingPolicy : Type 0 where
  pub pipeline_services : RawServices
  pub profile_node_groups : RawGroups
  pub profile_node_group_ingress : Option (List (String × String))
  pub allow_dynamic_load_for_unmatched_profiles : Bool
  pub experimental_node_id : Option String

-- Whether the node is known and lists the profile.
abbrev pub lists_profile : String → Option SparkNode → Bool
lists_profile profile_id none = false
lists_profile profile_id (some n) = supports_profile profile_id n

unfoldable pub check_group :
    List SparkNode → (profile_id : String) → Option (List String) → Result (List String)
check_group nodes profile_id none = value_error "profile node group must be a non-empty list"
check_group nodes profile_id (some node_ids) =
    raise_if (length node_ids == 0) "profile node group must be a non-empty list"
    >> raise_if (any (λ n. not (elem n (node_ids_of nodes))) node_ids)
        "profile node group references unknown nodes"
    >> raise_if (any (λ n. not (lists_profile profile_id (find_node n nodes))) node_ids)
        "profile node group references a node that does not list the profile"
    >> ok node_ids

unfoldable pub check_groups :
    List SparkNode → List (String × Option (List String)) → Result (List (String × List String))
check_groups nodes [] = ok []
check_groups nodes ((profile_id, raw) ∷ rest) = check_group nodes profile_id raw >>= λ node_ids.
    check_groups nodes rest >>= λ groups. ok ((profile_id, node_ids) ∷ groups)

unfoldable pub load_profile_node_groups :
    RawGroups → List SparkNode → Result (List (String × List String))
load_profile_node_groups none nodes =
    value_error "routing_policy.profile_node_groups must be an object"
load_profile_node_groups (some raw) nodes = check_groups nodes raw

unfoldable pub check_ingress :
    List (String × List String) → List (String × String) → Result (List (String × String))
check_ingress groups [] = ok []
check_ingress groups ((profile_id, node_id) ∷ rest) = elim (look profile_id groups) [
  | none ↦ value_error "profile node group ingress references unknown profile group"
  | some node_ids ↦
      raise_if (not (elem node_id node_ids)) "profile node group ingress is not in group"
      >> (check_ingress groups rest >>= λ out. ok ((profile_id, node_id) ∷ out))
]

unfoldable pub load_profile_group_ingress :
    Option (List (String × String)) → List (String × List String) → Result (List (String × String))
load_profile_group_ingress none groups =
    value_error "routing_policy.profile_node_group_ingress must be an object"
load_profile_group_ingress (some raw) groups = check_ingress groups raw

pub record SparkTopology : Type 0 where
  pub topology_id : String
  pub nodes : List SparkNode
  pub routing_policy : RoutingPolicy
  pub pipeline_services : List PipelineService
  pub profile_node_groups : List (String × List String)
  pub profile_group_ingress : List (String × String)

abbrev has_duplicate : List SparkNode → Bool
has_duplicate [] = false
has_duplicate (n ∷ rest) = elem n.node_id (node_ids_of rest) || has_duplicate rest

unfoldable pub spark_topology :
    Strings → (topology_id : String) → List SparkNode → RoutingPolicy → Result SparkTopology
spark_topology strings topology_id nodes policy =
    raise_if (length nodes == 0) "spark topology requires at least one node"
    >> (raise_if (has_duplicate nodes) "duplicate node_id in spark topology"
        >> (load_pipeline_services strings policy.pipeline_services (node_ids_of nodes)
            >>= λ services. load_profile_node_groups policy.profile_node_groups nodes >>= λ groups.
                load_profile_group_ingress policy.profile_node_group_ingress groups >>= λ ingress.
                ok (record {
                  topology_id = topology_id;
                  nodes = nodes;
                  routing_policy = policy;
                  pipeline_services = services;
                  profile_node_groups = groups;
                  profile_group_ingress = ingress;
                })))

unfoldable pub pipeline_service_by_id :
    SparkTopology → (service_id : String) → Result PipelineService
pipeline_service_by_id t service_id = go t.pipeline_services
  where
    go : List PipelineService → Result PipelineService
    go [] = value_error "unknown pipeline service"
    go (s ∷ rest) = if s.service_id == service_id then ok s else go rest

unfoldable pub pipeline_profiles_for_node :
    SparkTopology → (node_id : String) → Result (List PipelineService)
pipeline_profiles_for_node t node_id =
    raise_if (not (elem node_id (node_ids_of t.nodes))) "unknown spark node"
    >> ok (select (λ s. s.entry_node_id == node_id) t.pipeline_services)

stages_on : (node_id : String) → List PipelineService → Result (List PipelineStage)
stages_on node_id [] = ok []
stages_on node_id (s ∷ rest) =
    if elem node_id s.node_ids
    then (stage_for_node s node_id >>= λ stage.
        stages_on node_id rest >>= λ more. ok (stage ∷ more))
    else stages_on node_id rest

unfoldable pub pipeline_stages_for_node :
    SparkTopology → (node_id : String) → Result (List PipelineStage)
unfolding stages_on
pipeline_stages_for_node t node_id =
    raise_if (not (elem node_id (node_ids_of t.nodes))) "unknown spark node"
    >> stages_on node_id t.pipeline_services
