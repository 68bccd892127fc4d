-- ===== src/ExternalKv/Manifest.antt =====
-- external_kv_shards.py: `validate_external_kv_shards`; queue.py: the layer partition's fingerprint.
pub mod Laws
use ds4_on_spark.Prelude.{
  ℕ, zero, suc, ◌+◌, String, Bool, true, false, not, ◌&&◌, ◌||◌, Option, none, some, List, [], ◌∷◌,
  ◌++◌, all, any, length, ltb, ◌==◌, string-Eq, nat-Eq, if◌then◌else◌, Result, ok, value_error,
  raise_if, ◌>>=◌, ◌>>◌,
}
use ds4_on_spark.Prelude.Int.{ℤ, pos, ltb_ℤ, pos_part, int-Eq}
use ds4_on_spark.Json.{Json, get}

-- A shard as the caller declares it; a missing key is none.
pub record ShardJson : Type 0 where
  pub node_id : Option String
  pub stage_index : Option ℤ
  pub stage_count : Option ℤ
  pub layer_start : Option ℤ
  pub layer_end : Option ℤ
  pub bytes : Option ℤ
  pub state : Option String
  pub storage_uri : Option String
  pub gpu_resident : Option Bool
  pub metadata : Option Json

abbrev pub node_of : ShardJson → String
node_of s = elim s.node_id [ none ↦ "" | some n ↦ n ]

-- int(shard.get("stage_index", 0) or 0)
abbrev pub index_of : ShardJson → ℤ
index_of s = elim s.stage_index [ none ↦ pos 0 | some i ↦ i ]

-- int(shard.get("stage_count", len(shard_list)) or len(shard_list))
abbrev pub count_of : (size : ℕ) → ShardJson → ℤ
count_of size s = elim s.stage_count [
  | none ↦ pos size
  | some n ↦ if n == pos 0 then pos size else n
]

-- The loop; `seen` holds the pairs of a node and a stage, `counts` the stage counts.
unfoldable pub check_shards :
    (size : ℕ) → List ShardJson → (seen : List (String × ℤ)) (counts : List ℤ) → Result (List ℤ)
check_shards size [] seen counts = ok counts
check_shards size (s ∷ rest) seen counts =
    raise_if (node_of s == "") "external KV shard missing node_id"
    >> (raise_if
          (ltb_ℤ (index_of s) (pos 0)
            || (ltb_ℤ (count_of size s) (pos 1) || not (ltb_ℤ (index_of s) (count_of size s))))
          "external KV shard has invalid stage_index/stage_count"
        >> (raise_if (any (λ (x : String × ℤ). x.0 == node_of s && x.1 == index_of s) seen)
              "duplicate external KV shard"
            >> check_shards size rest ((node_of s, index_of s) ∷ seen)
                (counts ++ count_of size s ∷ [])))

-- len({str(shard.get("node_id")) …})
abbrev distinct_nodes : List ShardJson → ℕ
distinct_nodes [] = 0
distinct_nodes (s ∷ rest) =
    if any (λ r. node_of r == node_of s) rest
    then distinct_nodes rest
    else suc (distinct_nodes rest)

-- The set of the counts has one element.
abbrev agree : List ℤ → Bool
agree [] = false
agree (n ∷ rest) = all (λ m. m == n) rest

abbrev first : List ℤ → ℤ
first [] = pos 0
first (n ∷ rest) = n

-- The checks once the loop is done.
unfoldable pub check_counts :
    List ShardJson → (total_bytes : ℤ) → (counts : List ℤ) → Result (Unit {0})
check_counts shards total_bytes counts =
    raise_if (not (agree counts)) "external KV shards must agree on stage_count"
    >> raise_if (not (first counts == pos (length shards)))
        "external KV shard manifest must include exactly one shard per pipeline stage"
    >> raise_if
        (ltb_ℤ (pos 0) total_bytes
          && (ltb_ℤ (pos 1) (first counts) && ltb_ℤ (pos (distinct_nodes shards)) (first counts)))
        "external KV pipeline shards must be node-local, not aggregated on a single node"

unfoldable pub validate_external_kv_shards : List ShardJson → (total_bytes : ℤ) → Result (Unit {0})
unfolding check_shards check_counts
validate_external_kv_shards shards total_bytes =
    if length shards == 0
    then value_error
        "external KV objects must be declared with explicit node-local shard manifests; spark0 aggregation is forbidden"
    else check_shards (length shards) shards [] [] >>= check_counts shards total_bytes

-- A text that is not empty.
abbrev text_at : Option Json → Option String
text_at (some (Json.str s)) = if s == "" then none else some s
text_at _ = none

abbrev or_null : Option Json → Json
or_null none = Json.null
or_null (some j) = j

unfoldable pub metadata_partition_fingerprint : Json → Option String
metadata_partition_fingerprint metadata =
    elim (text_at (get metadata "layer_partition_fingerprint")) [
      | some s ↦ some s
      | none ↦ text_at (get (or_null (get metadata "kv_cache_contract")) "fingerprint")
    ]

abbrev mismatch : String → Option String → Bool
mismatch expected none = false
mismatch expected (some actual) = not (actual == expected)

unfoldable pub validate_external_kv_partition_fingerprint :
    (metadata : Json) → List ShardJson → Result (Unit {0})
unfolding metadata_partition_fingerprint
validate_external_kv_partition_fingerprint metadata shards =
    elim (metadata_partition_fingerprint metadata) [
      | none ↦ ok tt
      | some expected ↦
          raise_if
            (any
              (λ (s : ShardJson).
                mismatch expected (metadata_partition_fingerprint (or_null s.metadata)))
              shards)
            "external KV shard layer partition fingerprint mismatch"
    ]
