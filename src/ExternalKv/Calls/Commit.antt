-- ===== src/ExternalKv/Calls/Commit.antt =====
-- external_kv_shards.py: `update_external_kv_shard`, the state of an object by its shards; queue.py:
-- `external_kv_commit_shards` and `_recover_prefetch_manifests_locked`.
use ds4_on_spark.Prelude.{
  ℕ, ◌+◌, String, Bool, true, false, not, ◌&&◌, ◌||◌, Option, none, some, List, [], ◌∷◌, any, all,
  length, leb, count, sum_by, ◌==◌, string-Eq, nat-Eq, if◌then◌else◌, Result, ok, value_error,
  raise_if, ◌>>=◌, ◌>>◌,
}
use ds4_on_spark.Prelude.Int.{ℤ, pos, at_least_zero, int-Eq}
use ds4_on_spark.Json.{Json}
use ds4_on_spark.Sql.{select, update}
use ds4_on_spark.ExternalKv.{Object, KvShard, Store, Key, object_at, shard_at}
use ds4_on_spark.ExternalKv.Calls.{or_else, find_object}

-- One of `shard_updates`; a key that is there with None is `some none`, for the fields where that
-- counts.
pub record ShardUpdate : Type 0 where
  pub node_id : Option String
  pub stage_index : Option ℤ
  pub state : Option String
  pub bytes : Option ℤ
  pub storage_uri : Option (Option String)
  pub gpu_resident : Option Bool
  pub metadata : Option Json

abbrev on_node : Option String → KvShard → Bool
on_node none s = true
on_node (some n) s = s.node_id == n

abbrev on_stage : Option ℤ → KvShard → Bool
on_stage none s = true
on_stage (some i) s = pos s.stage_index == i

-- The `where` clause.
abbrev pub targets : Key → ShardUpdate → KvShard → Bool
targets k u s = shard_at k s && (on_node u.node_id s && on_stage u.stage_index s)

-- The `set` clauses.
unfoldable pub updated_shard : (default_state : String) (now : ℕ) → ShardUpdate → KvShard → KvShard
updated_shard default_state now u s = record s {
  state = elim u.state [ none ↦ default_state | some t ↦ if t == "" then default_state else t ];
  updated_at = now;
  last_used_at = now;
  bytes = elim u.bytes [ none ↦ s.bytes | some n ↦ at_least_zero n ];
  storage_uri = or_else u.storage_uri s.storage_uri;
  gpu_resident = or_else u.gpu_resident s.gpu_resident;
  metadata = or_else u.metadata s.metadata;
}

-- The rows changed, and their number.
unfoldable pub update_external_kv_shard :
    Key → ShardUpdate → (default_state : String) (now : ℕ) → List KvShard → ℕ × List KvShard
unfolding updated_shard
update_external_kv_shard k u default_state now shards =
    (count (targets k u) shards, update (targets k u) (updated_shard default_state now u) shards)

abbrev pub names_one : ShardUpdate → Bool
names_one u = elim u.node_id [
  | some n ↦ true
  | none ↦ elim u.stage_index [ some i ↦ true | none ↦ false ]
]

-- The loop over the updates.
unfoldable pub update_shards :
    Key
    → List ShardUpdate
    → (default_state : String) (now : ℕ) → List KvShard
    → Result (List KvShard)
unfolding update_external_kv_shard
update_shards k [] default_state now shards = ok shards
update_shards k (u ∷ rest) default_state now shards =
    let (changed, after) = update_external_kv_shard k u default_state now shards in
    raise_if (not (changed == 1) && names_one u) "expected exactly one external KV shard update"
    >> update_shards k rest default_state now after

abbrev pub is_ready : KvShard → Bool
is_ready s =
    any (λ t. t == s.state)
      ("ready_on_ssd" ∷ "gpu_resident" ∷ "available" ∷ "archived" ∷ "ready" ∷ [])

abbrev pub is_broken : KvShard → Bool
is_broken s = any (λ t. t == s.state) ("failed" ∷ "corrupt" ∷ "missing" ∷ [])

unfoldable pub external_kv_object_state_from_shards :
    (requested_state : String) → List KvShard → String
external_kv_object_state_from_shards requested_state shards =
    if length shards == 0
    then "missing_shards"
    else if all is_ready shards
    then requested_state
    else if any is_broken shards
    then "degraded"
    else "partial"

abbrev pub committed : Key → (object_state : String) (now : ℕ) → List KvShard → Object → Object
committed k object_state now shards o = record o {
  state = external_kv_object_state_from_shards object_state (select (shard_at k) shards);
  total_bytes = sum_by (λ (s : KvShard). s.bytes) (select (shard_at k) shards);
  updated_at = now;
  last_used_at = now;
}

-- The shards after the updates; without any, all of the object's are set to the state.
abbrev pub shards_after :
    Key → (shard_state : String) → List ShardUpdate → (now : ℕ) → Store → Result (List KvShard)
shards_after k shard_state [] now st = ok (
    update (shard_at k)
      (λ s. record s { state = shard_state; updated_at = now; last_used_at = now }) st.shards)
shards_after k shard_state (u ∷ rest) now st = update_shards k (u ∷ rest) shard_state now st.shards

unfoldable pub external_kv_commit_shards :
    Key → (object_state shard_state : String) → List ShardUpdate → (now : ℕ) → Store → Result Store
unfolding update_shards external_kv_object_state_from_shards
external_kv_commit_shards k object_state shard_state updates now st = elim (find_object k st) [
  | none ↦ value_error "external KV object is missing"
  | some row ↦ shards_after k shard_state updates now st >>= λ shards. ok (record st {
    shards = shards;
    objects = update (object_at k) (committed k object_state now shards) st.objects;
  })
]

abbrev waits : String → Bool
waits state = state == "prefetch_requested" || state == "prefetch_inflight"

-- `updated_at <= now - stale_s`, where a time to wait is given
abbrev stale : (stale_for now updated_at : ℕ) → Bool
stale stale_for now updated_at = stale_for == 0 || leb (updated_at + stale_for) now

unfoldable pub recover_prefetch_manifests : (stale_for now : ℕ) → Store → (ℕ × ℕ) × Store
recover_prefetch_manifests stale_for now st =
    let old_object = λ (o : Object). waits o.state && stale stale_for now o.updated_at in
    let old_shard = λ (s : KvShard). waits s.state && stale stale_for now s.updated_at in
    (
      (count old_object st.objects, count old_shard st.shards),
      record st {
        objects =
            update old_object
              (λ o. record o { state = "declared"; updated_at = now; last_used_at = now })
              st.objects;
        shards =
            update old_shard
              (λ s. record s {
                state = "declared";
                gpu_resident = false;
                updated_at = now;
                last_used_at = now;
              })
              st.shards;
      },
    )
