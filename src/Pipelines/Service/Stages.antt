-- ===== src/Pipelines/Service/Stages.antt =====
-- pipelines.py: `PipelineStage`, the stages of a service, and the KV shards that lie on them.
pub mod Laws
pub mod Lookup
pub mod Shards
use ds4_on_spark.Prelude.{
  ℕ, zero, suc, ◌+◌, ◌-◌, max, String, Bool, true, false, not, ◌&&◌, ◌||◌, Option, none, some, List,
  [], ◌∷◌, map, length, leb, ltb, ◌==◌, nat-Eq, string-Eq, if◌then◌else◌, Result, ok, value_error,
}
use ds4_on_spark.Prelude.Int.{ℤ, pos, negsuc}
use ds4_on_spark.Json.{Json, get}
use ds4_on_spark.Queue.Kv.{Shard, Layout, ceil_div}
use ds4_on_spark.Pipelines.Service.{PipelineService, or_else}

pub record PipelineStage : Type 0 where
  pub service_id : String
  pub profile_id : String
  pub stage_index : ℕ
  pub stage_count : ℕ
  pub node_id : String
  pub layer_start : ℕ
  pub layer_end : ℕ

abbrev pub layer_count : PipelineStage → ℕ
layer_count s = s.layer_end - s.layer_start

-- The loop of `stages`, with its index and its cursor. The two lists have one length in every service
-- that `from_json` makes, which is what `strict=True` asks for.
unfoldable pub stages_from :
    PipelineService → (index cursor : ℕ) → List String → List ℕ → List PipelineStage
stages_from s index cursor (node_id ∷ nodes) (count ∷ counts) =
    record {
      service_id = s.service_id;
      profile_id = s.profile_id;
      stage_index = index;
      stage_count = s.pipeline_parallel_size;
      node_id = node_id;
      layer_start = cursor;
      layer_end = cursor + count;
    }
    ∷ stages_from s (index + 1) (cursor + count) nodes counts
stages_from s index cursor _ _ = []

unfoldable pub stages : PipelineService → List PipelineStage
stages s = stages_from s 0 0 s.node_ids s.layer_partition

-- xs[i], IndexError out of range
abbrev pub at {ℓ} : {A : Type ℓ} → List A → ℕ → Option A
at [] i = none
at (x ∷ xs) zero = some x
at (x ∷ xs) (suc i) = at xs i

-- xs.index(x)
abbrev pub index_of : String → List String → Option ℕ
index_of x [] = none
index_of x (y ∷ ys) =
    if y == x then some 0 else elim (index_of x ys) [ none ↦ none | some i ↦ some (i + 1) ]

abbrev pub or_raise {ℓ} : {A : Type ℓ} → String → Option A → Result A
or_raise message none = value_error message
or_raise message (some a) = ok a

unfoldable pub stage_for_node : PipelineService → String → Result PipelineStage
unfolding stages
stage_for_node s node_id = elim (index_of node_id s.node_ids) [
  | none ↦ value_error "node is not in pipeline service"
  | some index ↦ or_raise "IndexError" (at (stages s) index)
]

unfoldable pub stage_for_index : PipelineService → ℤ → Result PipelineStage
unfolding stages
stage_for_index s (negsuc n) = value_error "stage_index is outside service"
stage_for_index s (pos index) = or_raise "stage_index is outside service" (at (stages s) index)

-- str(self.kv_cache.get("sharding", "pipeline_layers")) == "replicated"
abbrev pub is_replicated : PipelineService → Bool
is_replicated s = elim (get s.kv_cache "sharding") [
  | some (Json.str mode) ↦ mode == "replicated"
  | _ ↦ false
]

-- A number of bytes below 0 counts as 0 here as there.
unfoldable pub estimate_kv_shard_bytes : PipelineService → (total_bytes : ℕ) → ℕ
estimate_kv_shard_bytes s total_bytes =
    if is_replicated s then total_bytes else ceil_div total_bytes (length s.node_ids)

abbrev pub shard_on : (bytes : ℕ) → PipelineStage → Shard
shard_on bytes stage = record {
  node_id = stage.node_id;
  stage_index = stage.stage_index;
  stage_count = stage.stage_count;
  layer_start = some stage.layer_start;
  layer_end = some stage.layer_end;
  bytes = bytes;
}

-- What the queue asks of a layout. The contract in the metadata is left out.
unfoldable pub cache_shards : PipelineService → Layout
unfolding stages estimate_kv_shard_bytes
cache_shards s request_id kv_key total_bytes =
    if kv_key == "" || total_bytes == 0
    then []
    else map (shard_on (estimate_kv_shard_bytes s total_bytes)) (stages s)

-- int(value) of a JSON number; the conversion of other values is a parameter.
unfoldable pub pipeline_service_batch_limit : (int_of : Json → ℤ) → PipelineService → ℕ
pipeline_service_batch_limit int_of s =
    let plain = max 1 s.max_batch_size in
    elim (get s.scheduler "vllm_max_num_seqs") [
      | none ↦ plain
      | some Json.null ↦ plain
      | some value ↦ elim (int_of value) [ pos n ↦ max 1 n | negsuc n ↦ 1 ]
    ]
