-- ===== src/Pipelines/Tests.antt =====
-- pipelines.py at concrete inputs: each theorem at work on a service of two nodes.
use ds4_on_spark.Prelude.{
  ℕ, ◌+◌, ◌/◌, ◌≤◌, List, [], ◌∷◌, All, count, length, sum_by, ◌≡◌, refl, ok, arith,
}
use ds4_on_spark.Pipelines.Partition.{parts_with_tail, balanced_layer_partition}
use ds4_on_spark.Pipelines.Partition.Laws.{Splits, even_layer_partition-Splits}
use ds4_on_spark.Pipelines.Partition.Best.{
  peak_of, balanced_layer_partition-Splits, balanced_layer_partition-least,
}
use ds4_on_spark.Pipelines.Service.Valid.{IsService, from_json-IsService}
use ds4_on_spark.Pipelines.Service.Stages.{PipelineStage, stages, stage_for_node, cache_shards}
use ds4_on_spark.Pipelines.Service.Stages.Laws.{owns, stages_once}
use ds4_on_spark.Pipelines.Service.Stages.Lookup.{stage_for_node_lem}
use ds4_on_spark.Pipelines.Service.Stages.Shards.{cache_shards_bound}
use ds4_on_spark.Pipelines.Load.{Distinct, load_pipeline_services-Distinct}
use ds4_on_spark.Pipelines.Samples.{
  strings, asked, nodes, service, makes, raw_services, loads_one, fourth_layer, has_b,
  splits_evenly, splits_balanced,
}

from_json-IsService_example : IsService nodes service
from_json-IsService_example = from_json-IsService strings asked nodes service makes

stages_once_example : count (owns 3) (stages service) ≡ 1
stages_once_example =
    stages_once nodes service 3 (from_json-IsService strings asked nodes service makes) fourth_layer

stage_for_node_lem_example :
    (stage : PipelineStage) × (stage_for_node service "b" ≡ ok stage) × (stage.node_id ≡ "b")
stage_for_node_lem_example =
    stage_for_node_lem nodes service "b" (from_json-IsService strings asked nodes service makes)
      has_b

cache_shards_bound_example :
    (length (cache_shards service "r" "k" 7) ≡ length service.node_ids)
    × (7 ≤ sum_by (λ x. x.bytes) (cache_shards service "r" "k" 7))
cache_shards_bound_example =
    cache_shards_bound nodes service "r" "k" 7
      (from_json-IsService strings asked nodes service makes) refl (omega arith) (omega arith)

load_pipeline_services-Distinct_example :
    Distinct (service ∷ []) × All (IsService nodes) (service ∷ [])
load_pipeline_services-Distinct_example =
    load_pipeline_services-Distinct strings raw_services nodes (service ∷ []) loads_one

even_layer_partition-Splits_example :
    Splits 5 2 (3 ∷ 2 ∷ []) × All (λ n. (5 / 2 ≤ n) × (n ≤ 5 / 2 + 1)) (3 ∷ 2 ∷ [])
even_layer_partition-Splits_example = even_layer_partition-Splits 5 2 (3 ∷ 2 ∷ []) splits_evenly

balanced_layer_partition-Splits_example :
    (parts : List ℕ) × (balanced_layer_partition 64 3 333 ≡ ok parts) × Splits 64 3 parts
balanced_layer_partition-Splits_example =
    balanced_layer_partition-Splits 64 3 333 (omega arith) (omega arith)

balanced_layer_partition-least_example :
    peak_of 333 (7 ∷ 3 ∷ []) ≤ peak_of 333 (parts_with_tail 10 2 4)
balanced_layer_partition-least_example =
    balanced_layer_partition-least 10 2 333 (7 ∷ 3 ∷ []) 4 (omega arith) splits_balanced
      (omega arith) (omega arith)
