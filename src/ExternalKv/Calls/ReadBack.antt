-- ===== src/ExternalKv/Calls/ReadBack.antt =====
-- queue.py: what `_external_kv_manifest` reads back of an object that was declared.
use ds4_on_spark.Prelude.{
  ℕ, suc, ◌≤◌, ◌≡◌, ◌≢◌, ◌+◌, refl, ap, ◌∙◌, String, Bool, false, Option, none, some, List, [], ◌∷◌,
  map, All, All-map, All-In_own, In, length, inl, inr, Bool-cases, arith, ◌==◌, string-Eq, ok, ◌>>◌,
  >>-eq-ok,
}
use ds4_on_spark.Prelude.Int.{pos, at_least_zero}
use ds4_on_spark.Json.{dict}
use ds4_on_spark.Sql.{select, insert_sorted, order_by}
use ds4_on_spark.Sql.Laws.{All-insert_sorted, All-order_by, All-order_by_back, length-order_by}
use ds4_on_spark.ExternalKv.{Object, KvShard, Store, Key, shard_at}
use ds4_on_spark.ExternalKv.Manifest.{
  ShardJson, index_of, validate_external_kv_shards, validate_external_kv_partition_fingerprint,
}
use ds4_on_spark.ExternalKv.Manifest.Laws.{IsShard, validate_external_kv_shards-IsShard}
use ds4_on_spark.ExternalKv.Calls.{
  Declared, declared_object, declared_shard, upsert_external_kv_object, find_object, or_else,
}
use ds4_on_spark.ExternalKv.Calls.Laws.{Alike, upserted_rows}
use ds4_on_spark.ExternalKv.Lookup.{Manifested, by_stage, external_kv_manifest}

-- Every column of the object but the time of creation, which an earlier declaration may have set.
pub record StoredObject (k : Key) (d : Declared) (now : ℕ) (o : Object) : Type 0 where
  pub namespace : o.namespace ≡ k.namespace
  pub kv_key : o.kv_key ≡ k.kv_key
  pub service_id : o.service_id ≡ k.service_id
  pub profile_id : o.profile_id ≡ d.profile_id
  pub model_id : o.model_id ≡ d.model_id
  pub owner : o.owner ≡ d.owner
  pub content_hash : o.content_hash ≡ d.content_hash
  pub total_bytes : o.total_bytes ≡ at_least_zero d.total_bytes
  pub total_tokens : o.total_tokens ≡ at_least_zero d.total_tokens
  pub state : o.state ≡ d.state
  pub pin_count : o.pin_count ≡ at_least_zero d.pin_count
  pub priority : o.priority ≡ d.priority
  pub no_ttl : d.ttl ≡ none → o.ttl_expires_at ≡ none
  pub ttl : (t : ℕ) → d.ttl ≡ some t → o.ttl_expires_at ≡ some (now + t)
  pub metadata : o.metadata ≡ or_else d.metadata (dict [])
  pub updated_at : o.updated_at ≡ now
  pub last_used_at : o.last_used_at ≡ now

-- Every column of a shard, by the shard that was declared: `state` is the object's, for a shard
-- that has none of its own, and `size` the number of the shards.
pub record StoredShard (k : Key) (state : String) (size now : ℕ) (s : ShardJson) (r : KvShard)
    : Type 0 where
  pub namespace : r.namespace ≡ k.namespace
  pub kv_key : r.kv_key ≡ k.kv_key
  pub service_id : r.service_id ≡ k.service_id
  pub node_id : s.node_id ≡ some r.node_id
  pub stage_index : index_of s ≡ pos r.stage_index
  pub stage_count : r.stage_count ≡ size
  pub layer_start : r.layer_start ≡ s.layer_start
  pub layer_end : r.layer_end ≡ s.layer_end
  pub bytes : r.bytes ≡ at_least_zero (or_else s.bytes (pos 0))
  pub no_state : s.state ≡ none → r.state ≡ state
  pub empty_state : s.state ≡ some "" → r.state ≡ state
  pub own_state : (t : String) → s.state ≡ some t → (t == "") ≡ false → r.state ≡ t
  pub storage_uri : r.storage_uri ≡ s.storage_uri
  pub gpu_resident : r.gpu_resident ≡ or_else s.gpu_resident false
  pub metadata : r.metadata ≡ or_else s.metadata (dict [])
  pub created_at : r.created_at ≡ now
  pub updated_at : r.updated_at ≡ now
  pub last_used_at : r.last_used_at ≡ now

-- The stages do not descend.
pub Ascending : List KvShard → Type 0
Ascending [] = Unit {0}
Ascending (r ∷ rest) = All (λ (x : KvShard). r.stage_index ≤ x.stage_index) rest × Ascending rest

insert-Ascending :
    (text_before : String → String → Bool) (r : KvShard) (rs : List KvShard)
    → Ascending rs
    → Ascending (insert_sorted (by_stage text_before) r rs)
unfolding Ascending insert_sorted
insert-Ascending text_before r [] h = (tt, tt)
insert-Ascending text_before r (s ∷ rs) h = elim (Bool-cases (by_stage text_before s r)) [
  | inl later ↦
      let below : s.stage_index ≤ r.stage_index = ground (arith, later) in
      rw later (
        All-insert_sorted (λ (x : KvShard). s.stage_index ≤ x.stage_index) (by_stage text_before) r
            rs below h.0,
        insert-Ascending text_before r rs h.1,
      )
  | inr first ↦
      let below : r.stage_index ≤ s.stage_index = ground (arith, first) in
      rw first (
        (
          below,
          All-map (λ (x : KvShard). s.stage_index ≤ x.stage_index) _ rs
              (λ x e. omega (arith, below, e)) h.0,
        ),
        h,
      )
]

order_by-Ascending :
    (text_before : String → String → Bool) (rs : List KvShard)
    → Ascending (order_by (by_stage text_before) rs)
unfolding Ascending order_by
order_by-Ascending text_before [] = tt
order_by-Ascending text_before (r ∷ rs) =
    insert-Ascending text_before r (order_by (by_stage text_before) rs)
      (order_by-Ascending text_before rs)

stored_object :
    (k : Key) (d : Declared) (now : ℕ) (o : Object)
    → Alike o (declared_object k d now)
    → StoredObject k d now o
unfolding declared_object
stored_object k d now o h = record {
  namespace = ap (λ (x : Object). x.namespace) h;
  kv_key = ap (λ (x : Object). x.kv_key) h;
  service_id = ap (λ (x : Object). x.service_id) h;
  profile_id = ap (λ (x : Object). x.profile_id) h;
  model_id = ap (λ (x : Object). x.model_id) h;
  owner = ap (λ (x : Object). x.owner) h;
  content_hash = ap (λ (x : Object). x.content_hash) h;
  total_bytes = ap (λ (x : Object). x.total_bytes) h;
  total_tokens = ap (λ (x : Object). x.total_tokens) h;
  state = ap (λ (x : Object). x.state) h;
  pin_count = ap (λ (x : Object). x.pin_count) h;
  priority = ap (λ (x : Object). x.priority) h;
  no_ttl = λ e. ap (λ (x : Object). x.ttl_expires_at) h ∙ rw e refl;
  ttl = λ t e. ap (λ (x : Object). x.ttl_expires_at) h ∙ rw e refl;
  metadata = ap (λ (x : Object). x.metadata) h;
  updated_at = ap (λ (x : Object). x.updated_at) h;
  last_used_at = ap (λ (x : Object). x.last_used_at) h;
}

stored_shard :
    (k : Key) (state : String) (size now : ℕ) (s : ShardJson)
    → IsShard size s
    → StoredShard k state size now s (declared_shard k state size now s)
unfolding declared_shard
stored_shard k state size now s v =
    let (i, staged, _) = v.staged in
    record {
      namespace = refl;
      kv_key = refl;
      service_id = refl;
      node_id = named s.node_id v.placed;
      stage_index = rw staged refl;
      stage_count = rw v.counted refl;
      layer_start = refl;
      layer_end = refl;
      bytes = refl;
      no_state = λ e. rw e refl;
      empty_state = λ e. rw e refl;
      own_state = λ t e filled. rw (e, filled) refl;
      storage_uri = refl;
      gpu_resident = refl;
      metadata = refl;
      created_at = refl;
      updated_at = refl;
      last_used_at = refl;
    }
  where
    named :
        (o : Option String)
        → (elim o as (λ _. String) [ none ↦ "" | some n ↦ n ]) ≢ ""
        → o ≡ some (elim o as (λ _. String) [ none ↦ "" | some n ↦ n ])
    named none h = elim (h refl) [ ]
    named (some n) h = refl

-- An answer of `_external_kv_manifest` that tells what was declared.
pub record ReadBack (k : Key) (d : Declared) (shards : List ShardJson) (now : ℕ) (m : Manifested)
    : Type 0 where
  pub object : StoredObject k d now m.object
  pub size : length m.shards ≡ length shards
  pub each_stored :
      All
        (λ s. (r : KvShard) × In r m.shards × StoredShard k d.state (length shards) now s r)
        shards
  pub each_declared :
      All
        (λ r. (s : ShardJson) × In s shards × StoredShard k d.state (length shards) now s r)
        m.shards
  pub ascending : Ascending m.shards

module _ (k : Key) (state : String) (size now : ℕ) where
  -- A shard and its row, among the shards and among the rows.
  rows_stored :
      (P : KvShard → Type 0) (shards : List ShardJson)
      → All (IsShard size) shards
      → All P (map (declared_shard k state size now) shards)
      → All (λ s. (r : KvShard) × P r × StoredShard k state size now s r) shards
  rows_stored P [] v h = tt
  rows_stored P (s ∷ rest) v h = (
    (declared_shard k state size now s, h.0, stored_shard k state size now s v.0),
    rows_stored P rest v.1 h.1,
  )

  rows_declared :
      (P : ShardJson → Type 0) (shards : List ShardJson)
      → All (IsShard size) shards
      → All P shards
      → All
          (λ r. (s : ShardJson) × P s × StoredShard k state size now s r)
          (map (declared_shard k state size now) shards)
  rows_declared P [] v h = tt
  rows_declared P (s ∷ rest) v h =
      ((s, h.0, stored_shard k state size now s v.0), rows_declared P rest v.1 h.1)

  length-rows :
      (shards : List ShardJson)
      → length (map (declared_shard k state size now) shards) ≡ length shards
  length-rows [] = refl
  length-rows (s ∷ rest) = ap suc (length-rows rest)

accepted :
    (k : Key) (d : Declared) (shards : List ShardJson) (now : ℕ) (st after : Store)
    → upsert_external_kv_object k d shards now st ≡ ok after
    → All (IsShard (length shards)) shards
unfolding upsert_external_kv_object
accepted k d shards now st after h =
    let (checks, _) =
      >>-eq-ok
        (validate_external_kv_shards shards d.total_bytes
          >> validate_external_kv_partition_fingerprint (or_else d.metadata (dict [])) shards)
        _ h in
    let (valid, _) = >>-eq-ok (validate_external_kv_shards shards d.total_bytes) _ checks in
    (validate_external_kv_shards-IsShard shards d.total_bytes valid).0

-- What a declaration that is accepted stores is what is read back: the object is there, each of its
-- columns but the time of creation is the one declared, and there is one row for each shard of the
-- manifest, whose columns are those of the shard, with their defaults; the rows come in the order of
-- their stages.
pub upsert_external_kv_object_lem :
    (text_before : String → String → Bool) (k : Key) (d : Declared) (shards : List ShardJson)
    (now later : ℕ) (st after : Store)
    → upsert_external_kv_object k d shards now st ≡ ok after
    → (o : Object) × (find_object k after ≡ some o)
      × ReadBack k d shards now (external_kv_manifest text_before later after o)
unfolding external_kv_manifest
upsert_external_kv_object_lem text_before k d shards now later st after h =
    let (o, found, alike, rows) = upserted_rows k d shards now st after h in
    let stored = stored_object k d now o alike in
    let valid = accepted k d shards now st after h in
    let size = length shards in
    let declared = map (declared_shard k d.state size now) shards in
    let sorted = order_by (by_stage text_before) declared in
    let read : (order_by (by_stage text_before) (
          select
            (shard_at
              (record { namespace = o.namespace; kv_key = o.kv_key; service_id = o.service_id }))
            after.shards))
        ≡ sorted =
      rw (stored.namespace, stored.kv_key, stored.service_id)
        (ap (order_by (by_stage text_before)) rows) in
    (
      o,
      found,
      record {
        object = stored;
        size = rw read (
            length-order_by (by_stage text_before) declared
            ∙ length-rows k d.state size now shards);
        each_stored = rw read (
            rows_stored k d.state size now (λ r. In r sorted) shards valid
              (All-order_by_back (λ r. In r sorted) (by_stage text_before) declared
                (All-In_own sorted)));
        each_declared = rw read (
            All-order_by _ (by_stage text_before) declared (
              rows_declared k d.state size now (λ s. In s shards) shards valid
                (All-In_own shards)));
        ascending = rw read (order_by-Ascending text_before declared);
      },
    )
