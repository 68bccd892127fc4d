-- ===== src/ExternalKv/Calls/Effects.antt =====
-- queue.py: what evicting and committing an external KV object do to its rows.
use ds4_on_spark.Prelude.{
  ℕ, ◌≤◌, ◌≡◌, refl, sym, subst, String, true, false, Option, none, some, List, [], ◌∷◌, map,
  if◌then◌else◌, All, any, all, length, ltb, sum_by, ◌==◌, string-Eq, nat-Eq, ◌⊎◌, inl, inr,
  Bool-cases, Option-cases, arith, ok, raise_if, >>=-eq-ok, >>-eq-ok, raise_if-eq-ok, ok_injective,
}
use ds4_on_spark.Json.{Json, dict}
use ds4_on_spark.Sql.{select, update, delete}
use ds4_on_spark.ExternalKv.{Object, KvShard, Store, Key, object_at, shard_at}
use ds4_on_spark.ExternalKv.Calls.{find_object, shards_of, change_at, external_kv_evict}
use ds4_on_spark.ExternalKv.Calls.Commit.{
  ShardUpdate, is_ready, is_broken, committed, shards_after, external_kv_object_state_from_shards,
  external_kv_commit_shards,
}
use ds4_on_spark.ExternalKv.Calls.Laws.{All-select-update, select-update, delete-update}

-- The row of an object that has been evicted for a reason, by the row before.
abbrev pub evicted_object : (reason : String) (now : ℕ) → Object → Object
evicted_object reason now o = record o {
  state = "evicted";
  metadata = dict (("evicted_reason", Json.str reason) ∷ []);
  updated_at = now;
  last_used_at = now;
}

-- The row of a shard that has been evicted, by the row before.
abbrev pub evicted_shard : (now : ℕ) → KvShard → KvShard
evicted_shard now s = record s {
  state = "evicted";
  gpu_resident = false;
  updated_at = now;
  last_used_at = now;
}

-- What an eviction leaves: the object had no pins; the rows of the object and of its shards are
-- those of before, evicted; every other row, and the table of the leases, is as it was.
pub record Evicted (k : Key) (reason : String) (now : ℕ) (before after : Store) : Type 0 where
  pub object : Object
  pub found : find_object k before ≡ some object
  pub unpinned : object.pin_count ≡ 0
  pub objects :
      select (object_at k) after.objects
      ≡ map (evicted_object reason now) (select (object_at k) before.objects)
  pub shards : shards_of k after ≡ map (evicted_shard now) (shards_of k before)
  pub other_objects : delete (object_at k) after.objects ≡ delete (object_at k) before.objects
  pub other_shards : delete (shard_at k) after.shards ≡ delete (shard_at k) before.shards
  pub leases : after.leases ≡ before.leases

-- The reason that is noted: `operator` where none is given.
abbrev pub noted_reason : Option String → String
noted_reason none = "operator"
noted_reason (some r) = if r == "" then "operator" else r

-- An eviction that is not refused leaves the tables alone where the object is missing. Otherwise the
-- object had no pins; its row changes in its state, the reason noted and two times, those of its
-- shards in their state, the flag for the GPU and two times; every other column and row, and the
-- leases, are as they were.
pub external_kv_evict-Evicted :
    (k : Key) (reason : Option String) (now : ℕ) (before after : Store)
    → external_kv_evict k reason now before ≡ ok after
    → ((find_object k before ≡ none) × (after ≡ before))
      ⊎ Evicted k (noted_reason reason) now before after
unfolding external_kv_evict change_at
external_kv_evict-Evicted k reason now before after h = elim (Option-cases (find_object k before)) [
  | inl absent ↦ inl (absent, sym (ok_injective (rw (external_kv_evict, absent) at h)))
  | inr (row, found) ↦
      let (free, made) =
        >>-eq-ok (raise_if (ltb 0 row.pin_count) _) _ (rw (external_kv_evict, found) at h) in
      let unpinned = raise_if-eq-ok (ltb 0 row.pin_count) _ free in
      inr (
        subst (Evicted k (noted_reason reason) now before) (ok_injective made) (record {
          object = row;
          found = found;
          unpinned = ground (arith, unpinned);
          objects = by_reason reason;
          shards = select-update (shard_at k) (evicted_shard now) before.shards (λ s hit. hit);
          other_objects = delete-update (object_at k) _ before.objects (λ o hit. hit);
          other_shards = delete-update (shard_at k) _ before.shards (λ s hit. hit);
          leases = refl;
        }))
]
  where
    by_reason :
        (r : Option String)
        → select (object_at k) (
            update
              (object_at k)
              (evicted_object
                (elim r as (λ _. String) [
                  | none ↦ "operator"
                  | some t ↦ if t == "" then "operator" else t
                ])
                now)
              before.objects)
          ≡ map (evicted_object (noted_reason r) now) (select (object_at k) before.objects)
    by_reason none =
        select-update (object_at k) (evicted_object "operator" now) before.objects (λ o hit. hit)
    by_reason (some t) =
        select-update (object_at k) (evicted_object (noted_reason (some t)) now) before.objects
          (λ o hit. hit)

-- The state of the object goes with its shards.
pub data StateOf (requested : String) (shards : List KvShard) (state : String) : Type 0 where
  whole : all is_ready shards ≡ true → state ≡ requested → StateOf requested shards state
  no_shards : shards ≡ [] → state ≡ "missing_shards" → StateOf requested shards state
  degraded : any is_broken shards ≡ true → state ≡ "degraded" → StateOf requested shards state
  partial : all is_ready shards ≡ false → state ≡ "partial" → StateOf requested shards state

state_from_shards :
    (requested : String) (shards : List KvShard)
    → StateOf requested shards (external_kv_object_state_from_shards requested shards)
unfolding external_kv_object_state_from_shards
state_from_shards requested [] = no_shards refl refl
state_from_shards requested (s ∷ rest) = elim (Bool-cases (length (s ∷ rest) == 0)) [
  | inl empty ↦ let bad : 1 ≤ 0 = ground (arith, empty) in elim bad [ ]
  | inr some_shard ↦ elim (Bool-cases (all is_ready (s ∷ rest))) [
    | inl ready ↦ whole ready (rw (some_shard, ready) refl)
    | inr unready ↦ elim (Bool-cases (any is_broken (s ∷ rest))) [
      | inl broken ↦ degraded broken (rw (some_shard, unready, broken) refl)
      | inr fine ↦ partial unready (rw (some_shard, unready, fine) refl)
    ]
  ]
]

-- After a commit the object's size is the sum of the bytes of its shards, and its state is the one
-- asked for only where all of these are ready.
pub external_kv_commit_shards_lem :
    (k : Key) (object_state shard_state : String) (updates : List ShardUpdate) (now : ℕ)
    (before after : Store)
    → external_kv_commit_shards k object_state shard_state updates now before ≡ ok after
    → All
        (λ o.
          (o.total_bytes ≡ sum_by (λ (s : KvShard). s.bytes) (shards_of k after))
          × StateOf object_state (shards_of k after) o.state)
        (select (object_at k) after.objects)
unfolding external_kv_commit_shards
external_kv_commit_shards_lem k object_state shard_state updates now before after h =
    elim (Option-cases (find_object k before)) [
      | inl absent ↦ cc (rw (external_kv_commit_shards, absent) at h)
      | inr (row, found) ↦
          let (shards, changed, made) =
            >>=-eq-ok (shards_after k shard_state updates now before) _
              (rw (external_kv_commit_shards, found) at h) in
          subst
            (λ (st : Store).
              All
                (λ (o : Object).
                  (o.total_bytes ≡ sum_by (λ (s : KvShard). s.bytes) (shards_of k st))
                  × StateOf object_state (shards_of k st) o.state)
                (select (object_at k) st.objects))
            (ok_injective made)
            (All-select-update (object_at k) _ (committed k object_state now shards) before.objects
              (λ o hit. (refl, state_from_shards object_state (select (shard_at k) shards))))
    ]
