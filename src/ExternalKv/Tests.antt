-- ===== src/ExternalKv/Tests.antt =====
-- External KV objects at concrete inputs: an object of two shards, declared, evicted and committed.
use ds4_on_spark.Prelude.{
  ℕ, ◌≡◌, refl, String, none, some, List, [], ◌∷◌, All, sum_by, ◌⊎◌, Result, ok, value_error,
}
use ds4_on_spark.Prelude.Int.{pos}
use ds4_on_spark.Json.{get}
use ds4_on_spark.Sql.{select}
use ds4_on_spark.ExternalKv.{Object, KvShard, Store, Key, object_at}
use ds4_on_spark.ExternalKv.Manifest.{
  ShardJson, validate_external_kv_shards, validate_external_kv_partition_fingerprint,
  metadata_partition_fingerprint,
}
use ds4_on_spark.ExternalKv.Manifest.Laws.{IsShard, Separate, validate_external_kv_shards-IsShard}
use ds4_on_spark.ExternalKv.Calls.{
  Declared, upsert_external_kv_object, find_object, shards_of, external_kv_evict,
}
use ds4_on_spark.ExternalKv.Calls.Commit.{ShardUpdate, external_kv_commit_shards}
use ds4_on_spark.ExternalKv.Calls.ReadBack.{ReadBack, upsert_external_kv_object_lem}
use ds4_on_spark.ExternalKv.Lookup.{external_kv_manifest}
use ds4_on_spark.Queue.Text.{before}
use ds4_on_spark.ExternalKv.Calls.Effects.{
  Evicted, StateOf, external_kv_evict-Evicted, external_kv_commit_shards_lem,
}

abbrev shard : (node_id : String) (stage : ℕ) → ShardJson
shard node_id stage = record {
  node_id = some node_id;
  stage_index = some (pos stage);
  stage_count = none;
  layer_start = none;
  layer_end = none;
  bytes = some (pos 4);
  state = none;
  storage_uri = none;
  gpu_resident = none;
  metadata = none;
}

abbrev manifest : List ShardJson
manifest = shard "a" 0 ∷ shard "b" 1 ∷ []

accepts : validate_external_kv_shards manifest (pos 8) ≡ ok tt
unfolding validate_external_kv_shards
accepts = refl

-- Two shards of stage 0 on different nodes pass as well, and leave stage 1 without a shard.
accepts_two_of_one_stage :
    validate_external_kv_shards (shard "a" 0 ∷ shard "b" 0 ∷ []) (pos 8) ≡ ok tt
unfolding validate_external_kv_shards
accepts_two_of_one_stage = refl

validate_external_kv_shards-IsShard_example : All (IsShard 2) manifest × Separate manifest
validate_external_kv_shards-IsShard_example =
    validate_external_kv_shards-IsShard manifest (pos 8) accepts

abbrev key : Key
key = record { namespace = "default"; kv_key = "k"; service_id = "s" }

abbrev declared : Declared
declared = record {
  profile_id = none;
  model_id = none;
  owner = none;
  content_hash = none;
  total_bytes = pos 8;
  total_tokens = pos 1;
  state = "declared";
  pin_count = pos 0;
  priority = pos 100;
  ttl = none;
  metadata = none;
}

abbrev empty : Store
empty = record { objects = []; shards = []; leases = [] }

abbrev store_of : Result Store → Store
store_of (ok st) = st
store_of (value_error e) = empty

abbrev upserted : Store
upserted = store_of (upsert_external_kv_object key declared manifest 5 empty)

upserts : upsert_external_kv_object key declared manifest 5 empty ≡ ok upserted
unfolding upsert_external_kv_object validate_external_kv_shards
    validate_external_kv_partition_fingerprint metadata_partition_fingerprint get
upserts = refl

-- The manifest that is read back from the shards declared in the other order.
abbrev manifest_back : List ShardJson
manifest_back = shard "b" 1 ∷ shard "a" 0 ∷ []

abbrev upserted_back : Store
upserted_back = store_of (upsert_external_kv_object key declared manifest_back 5 upserted)

upserts_back : upsert_external_kv_object key declared manifest_back 5 upserted ≡ ok upserted_back
unfolding upsert_external_kv_object validate_external_kv_shards
    validate_external_kv_partition_fingerprint metadata_partition_fingerprint get
upserts_back = refl

upsert_external_kv_object_lem_example :
    (o : Object) × (find_object key upserted_back ≡ some o)
    × ReadBack key declared manifest_back 5 (external_kv_manifest before 9 upserted_back o)
upsert_external_kv_object_lem_example =
    upsert_external_kv_object_lem before key declared manifest_back 5 9 upserted upserted_back
      upserts_back

abbrev evicted : Store
evicted = store_of (external_kv_evict key none 6 upserted)

evicts : external_kv_evict key none 6 upserted ≡ ok evicted
unfolding external_kv_evict upsert_external_kv_object validate_external_kv_shards
    validate_external_kv_partition_fingerprint metadata_partition_fingerprint get
evicts = refl

external_kv_evict-Evicted_example :
    ((find_object key upserted ≡ none) × (evicted ≡ upserted))
    ⊎ Evicted key "operator" 6 upserted evicted
external_kv_evict-Evicted_example = external_kv_evict-Evicted key none 6 upserted evicted evicts

abbrev update_a : ShardUpdate
update_a = record {
  node_id = some "a";
  stage_index = none;
  state = some "ready";
  bytes = some (pos 6);
  storage_uri = none;
  gpu_resident = none;
  metadata = none;
}

abbrev committed_store : Store
committed_store =
    store_of (external_kv_commit_shards key "available" "ready_on_ssd" (update_a ∷ []) 7 upserted)

commits :
    external_kv_commit_shards key "available" "ready_on_ssd" (update_a ∷ []) 7 upserted
    ≡ ok committed_store
unfolding external_kv_commit_shards upsert_external_kv_object validate_external_kv_shards
    validate_external_kv_partition_fingerprint metadata_partition_fingerprint get
commits = refl

external_kv_commit_shards_lem_example :
    All
      (λ o.
        (o.total_bytes ≡ sum_by (λ (s : KvShard). s.bytes) (shards_of key committed_store))
        × StateOf "available" (shards_of key committed_store) o.state)
      (select (object_at key) committed_store.objects)
external_kv_commit_shards_lem_example =
    external_kv_commit_shards_lem key "available" "ready_on_ssd" (update_a ∷ []) 7 upserted
      committed_store commits
