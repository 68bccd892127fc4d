-- ===== src/Topology/Tests.antt =====
-- topology.py at concrete inputs: two nodes, one of which is busier.
use ds4_on_spark.Prelude.{
  String, true, false, none, some, List, [], ◌∷◌, ◌≡◌, refl, Result, ok, value_error, arith,
}
use ds4_on_spark.Sql.{order_by}
use ds4_on_spark.Pipelines.Samples.{strings}
use ds4_on_spark.Pipelines.Load.{RawServices, load_pipeline_services}
use ds4_on_spark.Queue.Submit.Rows.{Load}
use ds4_on_spark.Topology.{SparkNode}
use ds4_on_spark.Topology.Groups.{
  RoutingPolicy, SparkTopology, spark_topology, load_profile_node_groups,
  load_profile_group_ingress, check_groups, check_ingress,
}
use ds4_on_spark.Topology.Known.{spark_topology-IsTopology}
use ds4_on_spark.Topology.Assign.{
  Names, SparkAssignment, on_nodes, Reason, assign_profile, assign_resident, choose_resident_node,
  preferred_nodes, nodes_for_profile, pipeline_service_for_profile,
}
use ds4_on_spark.Topology.Assigned.{Assigned, assign_profile-Assigned}
use ds4_on_spark.Topology.Capacity.{estimate_capacity_by_profile}
use ds4_on_spark.Topology.Least.{Picked, choose_resident_node-least}

abbrev spark : String → SparkNode
spark id = record {
  node_id = id;
  roles = "production" ∷ [];
  resident_profiles = "small" ∷ [];
  default_capacity = 4;
  immediate_reserved = false;
  dynamic_load = false;
}

abbrev sparks : List SparkNode
sparks = spark "a" ∷ spark "b" ∷ []

abbrev policy : RoutingPolicy
policy = record {
  pipeline_services = RawServices.absent;
  profile_node_groups = some [];
  profile_node_group_ingress = some [];
  allow_dynamic_load_for_unmatched_profiles = false;
  experimental_node_id = none;
}

abbrev made : Result SparkTopology → SparkTopology
made (ok t) = t
made (value_error e) = record {
  topology_id = "";
  nodes = [];
  routing_policy = policy;
  pipeline_services = [];
  profile_node_groups = [];
  profile_group_ingress = [];
}

abbrev topology : SparkTopology
topology = made (spark_topology strings "t" sparks policy)

makes : spark_topology strings "t" sparks policy ≡ ok topology
unfolding spark_topology load_profile_node_groups load_profile_group_ingress load_pipeline_services
    check_groups check_ingress
makes = refl

abbrev names : Names
names = record { text_before = λ x y. false; join = λ l. "" }

abbrev busy : Load
busy = ("a", 2) ∷ []

chooses : choose_resident_node names.text_before false busy sparks ≡ some (spark "b")
unfolding choose_resident_node order_by preferred_nodes
chooses = refl

abbrev on_b : SparkAssignment
on_b = on_nodes "small" "b" ("b" ∷ []) true false Reason.resident_profile

assigns : assign_profile names topology "small" false busy ≡ ok on_b
unfolding assign_profile assign_resident choose_resident_node order_by nodes_for_profile
    spark_topology load_profile_node_groups load_profile_group_ingress load_pipeline_services
    check_groups check_ingress preferred_nodes pipeline_service_for_profile
assigns = refl

assign_profile-Assigned_example : Assigned names topology "small" on_b
assign_profile-Assigned_example =
    assign_profile-Assigned names topology "small" false busy on_b
      (spark_topology-IsTopology strings "t" sparks policy topology makes) assigns

choose_resident_node-least_example : Picked false busy sparks (spark "b")
choose_resident_node-least_example =
    choose_resident_node-least names.text_before false busy sparks (spark "b")
      (omega arith, (omega arith, tt)) chooses

-- Two nodes of capacity 4 have the profile resident: the second is left out of the estimate.
counts_first_node : estimate_capacity_by_profile topology ≡ ("small", 4) ∷ []
unfolding estimate_capacity_by_profile spark_topology load_profile_node_groups
    load_profile_group_ingress load_pipeline_services check_groups check_ingress
counts_first_node = refl
