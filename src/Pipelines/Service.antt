-- ===== src/Pipelines/Service.antt =====
-- pipelines.py: `PipelineService`, how it is read from a routing policy, and its stages. The values
-- that `from_json` reads come as the types that its conversions expect.
pub mod Stages
pub mod Valid
use ds4_on_spark.Prelude.{
  ℕ, ◌+◌, ◌-◌, max, String, Bool, true, false, not, ◌&&◌, ◌||◌, Option, none, some, List, [], ◌∷◌,
  map, all, any, length, sum_by, ltb, leb, ◌==◌, nat-Eq, string-Eq, if◌then◌else◌, Result, ok,
  value_error, raise_if, ◌>>=◌, ◌>>◌,
}
use ds4_on_spark.Prelude.Int.{ℤ, pos, ltb_ℤ, pos_part, neg_part, int-Eq}
use ds4_on_spark.Json.{Json, dict, get, set}
use ds4_on_spark.Pipelines.Partition.{even_layer_partition, qwen36_27b_bf16_layer_partition}

-- Python's `s.rstrip("/")` and `s.strip().lower()`.
pub record Strings : Type 0 where
  pub rstrip_slash : String → String
  pub normal : String → String

-- What `layer_partition` may hold.
pub data Partition : Type 0 where
  preset : String → Partition
  explicit : List ℤ → Partition
  other : Partition

-- What `layer_partition_by_node` may hold. The keys of an object are distinct.
pub data ByNode : Type 0 where
  counts : List (String × ℤ) → ByNode
  no_object : ByNode

-- One service of the routing policy; a missing key is none.
pub record ServiceJson : Type 0 where
  pub service_id : Option String
  pub profile_id : Option String
  pub model_id : Option String
  pub entry_node_id : Option String
  pub node_ids : Option (List String)
  pub api_base_url : Option String
  pub total_layers : Option ℤ
  pub pipeline_parallel_size : Option ℤ
  pub tensor_parallel_size : Option ℤ
  pub layer_partition_by_node : Option ByNode
  pub layer_partition : Option Partition
  pub max_batch_size : Option ℤ
  pub max_num_seqs : Option ℤ
  pub compute_domain : Option String
  pub dtype : Option String
  pub precision : Option String
  pub kv_cache : Option Json
  pub scheduler : Option Json
  pub telemetry : Option Json

pub record PipelineService : Type 0 where
  pub service_id : String
  pub profile_id : String
  pub model_id : String
  pub entry_node_id : String
  pub node_ids : List String
  pub api_base_url : String
  pub compute_domain : String
  pub pipeline_parallel_size : ℕ
  pub tensor_parallel_size : ℕ
  pub total_layers : ℕ
  pub layer_partition : List ℕ
  pub layer_partition_source : String
  pub dtype : String
  pub max_batch_size : ℕ
  pub kv_cache : Json
  pub scheduler : Json
  pub telemetry : Json

abbrev pub or_else {ℓ} : {A : Type ℓ} → Option A → A → A
or_else none a = a
or_else (some b) a = b

abbrev pub is_none {ℓ} : {A : Type ℓ} → Option A → Bool
is_none none = true
is_none (some a) = false

-- `x in xs`
abbrev pub elem : String → List String → Bool
elem x = any λ y. y == x

abbrev look : String → List (String × ℤ) → Option ℤ
look k [] = none
look k ((j, v) ∷ rest) = if j == k then some v else look k rest

-- tuple(int(raw[node_id]) for node_id in node_ids), once no node is missing
abbrev at_nodes : List (String × ℤ) → List String → List ℤ
at_nodes raw = map λ n. or_else (look n raw) (pos 0)

unfoldable pub layer_partition_by_node : Option ByNode → List String → Result (Option (List ℤ))
layer_partition_by_node none node_ids = ok none
layer_partition_by_node (some no_object) node_ids =
    value_error "layer_partition_by_node must be an object mapping node_id to layer count"
layer_partition_by_node (some (counts raw)) node_ids =
    raise_if (any (λ n. is_none (look n raw)) node_ids) "layer_partition_by_node missing nodes"
    >> raise_if (any (λ (x : String × ℤ). not (elem x.0 node_ids)) raw)
        "layer_partition_by_node references nodes outside node_ids"
    >> ok (some (at_nodes raw node_ids))

abbrev ints : List ℕ → List ℤ
ints = map pos

abbrev sourced : String → Result (List ℕ) → Result (List ℤ × String)
sourced source parts = parts >>= λ p. ok (ints p, source)

unfoldable pub layer_partition_from_preset :
    Strings → String → (total_layers stage_count : ℕ) → Result (List ℤ × String)
layer_partition_from_preset strings raw total_layers stage_count =
    let key = strings.normal raw in
    if elem key ("auto" ∷ "even" ∷ "layers/n" ∷ "layers_per_n" ∷ [])
    then sourced "even" (even_layer_partition total_layers stage_count)
    else if elem key ("qwen3.6-27b-bf16" ∷ "qwen36_27b_bf16" ∷ "qwen27_bf16" ∷ [])
    then sourced key (qwen36_27b_bf16_layer_partition stage_count)
    else value_error "unknown layer_partition preset"

unfoldable pub load_layer_partition_with_source :
    Strings → ServiceJson → List String → (total_layers stage_count : ℕ) → Result (List ℤ × String)
unfolding layer_partition_by_node layer_partition_from_preset
load_layer_partition_with_source strings item node_ids total_layers stage_count =
    layer_partition_by_node item.layer_partition_by_node node_ids >>= λ by_node. elim by_node [
      | some parts ↦ ok (parts, "by_node")
      | none ↦ elim item.layer_partition [
        | none ↦ sourced "even" (even_layer_partition total_layers stage_count)
        | some (preset raw) ↦ layer_partition_from_preset strings raw total_layers stage_count
        | some other ↦
            value_error
              "layer_partition must be a list, object-by-node override, or known preset string"
        | some (explicit parts) ↦ ok (parts, "explicit")
      ]
    ]

abbrev set_default : Json → String → Json → Json
set_default d k v = if is_none (get d k) then set d k v else d

unfoldable pub apply_scheduler_batch_defaults : Json → (max_batch_size : ℕ) → Json
apply_scheduler_batch_defaults scheduler max_batch_size =
    let value = Json.num (pos max_batch_size) in
    set_default (set_default (set_default scheduler "queue_concurrency" value) "queue_limit" value)
      "vllm_max_num_seqs" value

-- A key of `required`.
abbrev need {ℓ} : {A : Type ℓ} → Option A → Result A
need none = value_error "pipeline service missing fields"
need (some a) = ok a

-- Whether ints add up to a number.
abbrev sums_to : List ℤ → ℕ → Bool
sums_to parts total = sum_by pos_part parts == total + sum_by neg_part parts

-- The checks of the partition.
unfoldable pub check_parts : List ℤ → (total_layers stage_count : ℕ) → Result (List ℕ)
check_parts parts total_layers stage_count =
    raise_if (not (length parts == stage_count))
      "layer_partition length must match pipeline_parallel_size"
    >> raise_if (not (sums_to parts total_layers)) "layer_partition must sum to total_layers"
    >> raise_if (any (λ n. ltb_ℤ n (pos 1)) parts) "each pipeline stage must own at least one layer"
    >> ok (map pos_part parts)

-- The checks of the nodes and of the counts. `size` is pipeline_parallel_size.
unfoldable pub check_nodes :
    (node_ids known_node_ids : List String) (entry_node_id : String) (size tensor total_layers : ℤ)
    → Result (Unit {0})
check_nodes node_ids known_node_ids entry_node_id size tensor total_layers =
    raise_if (length node_ids == 0) "pipeline service node_ids must be non-empty"
    >> raise_if (any (λ n. not (elem n known_node_ids)) node_ids)
        "pipeline service references unknown nodes"
    >> raise_if (not (elem entry_node_id node_ids))
        "pipeline service entry_node_id must be one of node_ids"
    >> raise_if (not (size == pos (length node_ids)))
        "pipeline_parallel_size must match node_ids length"
    >> raise_if (ltb_ℤ tensor (pos 1) || ltb_ℤ size (pos 1) || ltb_ℤ total_layers (pos 1))
        "pipeline, tensor, and layer counts must be positive"

-- The fields of a service, once they are read and checked.
unfoldable pub service_of :
    Strings
    → ServiceJson
    → (service_id profile_id model_id entry_node_id api_base_url : String) (node_ids : List String)
    → (tensor total_layers : ℤ) → List ℕ × String
    → (batch_size : ℤ) → PipelineService
unfolding apply_scheduler_batch_defaults
service_of strings item service_id profile_id model_id entry_node_id api_base_url node_ids tensor
      total_layers partition batch_size =
    record {
      service_id = service_id;
      profile_id = profile_id;
      model_id = model_id;
      entry_node_id = entry_node_id;
      node_ids = node_ids;
      api_base_url = strings.rstrip_slash api_base_url;
      compute_domain = elim item.compute_domain [
        | none ↦ service_id
        | some domain ↦ if domain == "" then service_id else domain
      ];
      pipeline_parallel_size = length node_ids;
      tensor_parallel_size = pos_part tensor;
      total_layers = pos_part total_layers;
      layer_partition = partition.0;
      layer_partition_source = partition.1;
      dtype = or_else item.dtype (or_else item.precision "unknown");
      max_batch_size = pos_part batch_size;
      kv_cache = or_else item.kv_cache (dict []);
      scheduler =
          apply_scheduler_batch_defaults (or_else item.scheduler (dict [])) (pos_part batch_size);
      telemetry = or_else item.telemetry (dict []);
    }

-- from_json once no key is missing.
unfoldable pub make_service :
    Strings
    → ServiceJson
    → (known_node_ids : List String)
    → (service_id profile_id model_id entry_node_id api_base_url : String) (node_ids : List String)
    → (total_layers : ℤ) → Result PipelineService
make_service strings item known_node_ids service_id profile_id model_id entry_node_id api_base_url
      node_ids total_layers =
    let size = or_else item.pipeline_parallel_size (pos (length node_ids)) in
    let tensor = or_else item.tensor_parallel_size (pos 1) in
    let batch_size = or_else item.max_batch_size (or_else item.max_num_seqs (pos 1)) in
    check_nodes node_ids known_node_ids entry_node_id size tensor total_layers
    >> (load_layer_partition_with_source strings item node_ids (pos_part total_layers)
          (length node_ids)
        >>= λ read. check_parts read.0 (pos_part total_layers) (length node_ids) >>= λ parts.
            raise_if (ltb_ℤ batch_size (pos 1)) "pipeline service max_batch_size must be positive"
            >> ok (
                service_of strings item service_id profile_id model_id entry_node_id api_base_url
                  node_ids tensor total_layers (parts, read.1) batch_size))

unfoldable pub from_json :
    Strings → ServiceJson → (known_node_ids : List String) → Result PipelineService
from_json strings item known_node_ids = need item.service_id >>= λ service_id.
    need item.profile_id >>= λ profile_id. need item.model_id >>= λ model_id.
    need item.entry_node_id >>= λ entry_node_id. need item.node_ids >>= λ node_ids.
    need item.api_base_url >>= λ api_base_url. need item.total_layers >>= λ total_layers.
    make_service strings item known_node_ids service_id profile_id model_id entry_node_id
      api_base_url node_ids total_layers
