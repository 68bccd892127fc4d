-- ===== src/Pipelines/Samples.antt =====
-- A pipeline service on two nodes.
use ds4_on_spark.Prelude.{
  String, true, none, some, List, [], ◌∷◌, ◌≡◌, refl, Result, ok, value_error, ◌<◌, arith,
}
use ds4_on_spark.Prelude.Int.{pos}
use ds4_on_spark.Json.{dict, get, set}
use ds4_on_spark.Pipelines.Partition.{even_layer_partition, balanced_layer_partition}
use ds4_on_spark.Pipelines.Service.{
  Strings, ServiceJson, PipelineService, elem, from_json, make_service, service_of, check_nodes,
  check_parts, load_layer_partition_with_source, apply_scheduler_batch_defaults,
}
use ds4_on_spark.Pipelines.Service.Stages.{pipeline_service_batch_limit}
use ds4_on_spark.Pipelines.Load.{RawServices, load_pipeline_services}

abbrev pub strings : Strings
strings = record { rstrip_slash = λ s. s; normal = λ s. s }

abbrev pub item : ServiceJson
item = record {
  service_id = none;
  profile_id = some "qwen";
  model_id = some "m";
  entry_node_id = some "a";
  node_ids = some ("a" ∷ "b" ∷ []);
  api_base_url = some "http://a";
  total_layers = some (pos 5);
  pipeline_parallel_size = none;
  tensor_parallel_size = none;
  layer_partition_by_node = none;
  layer_partition = none;
  max_batch_size = some (pos 4);
  max_num_seqs = none;
  compute_domain = none;
  dtype = none;
  precision = none;
  kv_cache = none;
  scheduler = none;
  telemetry = none;
}

abbrev pub nodes : List String
nodes = "a" ∷ "b" ∷ "c" ∷ []

abbrev pub made : Result PipelineService → PipelineService
made (ok s) = s
made (value_error e) = record {
  service_id = "";
  profile_id = "";
  model_id = "";
  entry_node_id = "";
  node_ids = [];
  api_base_url = "";
  compute_domain = "";
  pipeline_parallel_size = 0;
  tensor_parallel_size = 0;
  total_layers = 0;
  layer_partition = [];
  layer_partition_source = "";
  dtype = "";
  max_batch_size = 0;
  kv_cache = dict [];
  scheduler = dict [];
  telemetry = dict [];
}

abbrev pub asked : ServiceJson
asked = record item { service_id = some "s" }

abbrev pub service : PipelineService
service = made (from_json strings asked nodes)

pub makes : from_json strings asked nodes ≡ ok service
unfolding from_json make_service service_of check_nodes check_parts load_layer_partition_with_source
    even_layer_partition
makes = refl

pub laid_out : service.layer_partition ≡ 3 ∷ 2 ∷ []
unfolding from_json make_service service_of check_nodes check_parts load_layer_partition_with_source
    even_layer_partition
laid_out = refl

-- The scheduler's default is the batch size.
pub limited : pipeline_service_batch_limit (λ j. pos 4) service ≡ 4
unfolding pipeline_service_batch_limit from_json make_service service_of check_nodes check_parts
    load_layer_partition_with_source even_layer_partition apply_scheduler_batch_defaults get set
limited = refl

abbrev pub raw_services : RawServices
raw_services = RawServices.by_id (("s", some item) ∷ [])

pub loads_one : load_pipeline_services strings raw_services nodes ≡ ok (service ∷ [])
unfolding load_pipeline_services from_json make_service service_of check_nodes check_parts
    load_layer_partition_with_source even_layer_partition
loads_one = refl

pub splits_evenly : even_layer_partition 5 2 ≡ ok (3 ∷ 2 ∷ [])
unfolding even_layer_partition
splits_evenly = refl

-- Three layers' worth of extra work at the end leave the last stage fewer of its own.
pub splits_balanced : balanced_layer_partition 10 2 333 ≡ ok (7 ∷ 3 ∷ [])
unfolding balanced_layer_partition
splits_balanced = refl

pub fourth_layer : 3 < service.total_layers
unfolding from_json make_service service_of check_nodes check_parts load_layer_partition_with_source
    even_layer_partition
fourth_layer = omega arith

pub has_b : elem "b" service.node_ids ≡ true
unfolding from_json make_service service_of check_nodes check_parts load_layer_partition_with_source
    even_layer_partition
has_b = refl
