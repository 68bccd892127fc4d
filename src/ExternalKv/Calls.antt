-- ===== src/ExternalKv/Calls.antt =====
-- queue.py: the calls on external KV objects; each answers the tables that it leaves, or raises. The
-- key is one that `normalize_namespace`, `require_kv_key` and `require_service_id` have let through.
pub mod Commit
pub mod Laws
pub mod Effects
pub mod ReadBack
use ds4_on_spark.Prelude.{
  ℕ, ◌+◌, ◌-◌, max, min, String, Bool, true, false, not, ◌&&◌, ◌||◌, Option, none, some, List, [],
  ◌∷◌, ◌++◌, map, any, all, length, leb, ltb, head?, sum_by, ◌==◌, string-Eq, nat-Eq, if◌then◌else◌,
  Result, ok, value_error, raise_if, ◌>>=◌, ◌>>◌,
}
use ds4_on_spark.Prelude.Int.{ℤ, pos, negsuc, at_least_zero, pos_part, neg_part}
use ds4_on_spark.Json.{Json, Fields, dict, set}
use ds4_on_spark.Sql.{select, update, delete}
use ds4_on_spark.ExternalKv.{Object, KvShard, KvLease, Store, Key, object_at, shard_at, lease_at}
use ds4_on_spark.ExternalKv.Manifest.{
  ShardJson, node_of, index_of, count_of, validate_external_kv_shards,
  validate_external_kv_partition_fingerprint,
}

abbrev pub or_else {ℓ} : {A : Type ℓ} → Option A → A → A
or_else none a = a
or_else (some b) a = b

-- The arguments of `upsert_external_kv_object` beside the key and the shards.
pub record Declared : Type 0 where
  pub profile_id : Option String
  pub model_id : Option String
  pub owner : Option String
  pub content_hash : Option String
  pub total_bytes : ℤ
  pub total_tokens : ℤ
  pub state : String
  pub pin_count : ℤ
  pub priority : ℤ
  pub ttl : Option ℕ
  pub metadata : Option Json

abbrev expiry : (now : ℕ) → Option ℕ → Option ℕ
expiry now none = none
expiry now (some ttl) = some (now + ttl)

-- The row that is inserted.
unfoldable pub declared_object : Key → Declared → (now : ℕ) → Object
declared_object k d now = record {
  namespace = k.namespace;
  kv_key = k.kv_key;
  service_id = k.service_id;
  profile_id = d.profile_id;
  model_id = d.model_id;
  owner = d.owner;
  content_hash = d.content_hash;
  total_bytes = at_least_zero d.total_bytes;
  total_tokens = at_least_zero d.total_tokens;
  state = d.state;
  pin_count = at_least_zero d.pin_count;
  priority = d.priority;
  ttl_expires_at = expiry now d.ttl;
  metadata = or_else d.metadata (dict []);
  created_at = now;
  updated_at = now;
  last_used_at = now;
}

-- on conflict do update: all but the time of creation
unfoldable pub put_object : Key → Object → List Object → List Object
put_object k o objects =
    if any (object_at k) objects
    then update (object_at k) (λ old. record o { created_at = old.created_at }) objects
    else objects ++ o ∷ []

unfoldable pub declared_shard : Key → (state : String) (size now : ℕ) → ShardJson → KvShard
declared_shard k state size now s = record {
  namespace = k.namespace;
  kv_key = k.kv_key;
  service_id = k.service_id;
  node_id = node_of s;
  stage_index = at_least_zero (index_of s);
  stage_count = at_least_zero (count_of size s);
  layer_start = s.layer_start;
  layer_end = s.layer_end;
  bytes = at_least_zero (or_else s.bytes (pos 0));
  state = elim s.state [ none ↦ state | some t ↦ if t == "" then state else t ];
  storage_uri = s.storage_uri;
  gpu_resident = or_else s.gpu_resident false;
  metadata = or_else s.metadata (dict []);
  created_at = now;
  updated_at = now;
  last_used_at = now;
}

unfoldable pub upsert_external_kv_object :
    Key → Declared → List ShardJson → (now : ℕ) → Store → Result Store
unfolding declared_object put_object declared_shard
upsert_external_kv_object k d shards now st =
    validate_external_kv_shards shards d.total_bytes
    >> validate_external_kv_partition_fingerprint (or_else d.metadata (dict [])) shards
    >> ok (record st {
      objects = put_object k (declared_object k d now) st.objects;
      shards =
          delete (shard_at k) st.shards
          ++ map (declared_shard k d.state (length shards) now) shards;
    })

abbrev pub drop_expired : (now : ℕ) → Store → Store
drop_expired now st = record st { leases = delete (λ l. leb l.expires_at now) st.leases }

-- `select * … where` the key
abbrev pub find_object : Key → Store → Option Object
find_object k st = head? (select (object_at k) st.objects)

abbrev pub shards_of : Key → Store → List KvShard
shards_of k st = select (shard_at k) st.shards

abbrev missing : {A : Type 0} → Result A
missing = value_error "external KV object is missing"

-- `existing.update(metadata)`: the fields of the second in turn
merge_fields : Json → Fields → Json
merge_fields into Fields.end = into
merge_fields into (Fields.field k v rest) = merge_fields (set into k v) rest

unfoldable pub merged : Json → Option Json → Json
unfolding merge_fields
merged existing (some (Json.obj fs)) = merge_fields existing fs
merged existing _ = existing

-- A change of the object, and one of its shards.
unfoldable pub change_at : Key → (Object → Object) → (KvShard → KvShard) → Store → Store
change_at k f g st = record st {
  objects = update (object_at k) f st.objects;
  shards = update (shard_at k) g st.shards;
}

-- Only where the object is there.
unfoldable pub change_object :
    Key → (Object → Object → Object) → (KvShard → KvShard) → Store → Result Store
unfolding change_at
change_object k f g st = elim (find_object k st) [
  | none ↦ missing
  | some row ↦ ok (change_at k (f row) g st)
]

abbrev touched : (now : ℕ) → KvShard → KvShard
touched now s = record s { updated_at = now; last_used_at = now }

abbrev pub given {ℓ} : {A : Type ℓ} → Option A → Option A → Option A
given none old = old
given (some a) old = some a

unfoldable pub external_kv_touch :
    Key
    → (owner state : Option String) (priority : Option ℤ) (ttl : Option ℕ) (metadata : Option Json)
    → (now : ℕ) → Store
    → Result Store
unfolding change_object merged
external_kv_touch k owner state priority ttl metadata now =
    change_object k
      (λ row o. record o {
        metadata = merged row.metadata metadata;
        owner = given owner o.owner;
        state = or_else state o.state;
        priority = or_else priority o.priority;
        ttl_expires_at = elim ttl [ none ↦ o.ttl_expires_at | some t ↦ some (now + t) ];
        updated_at = now;
        last_used_at = now;
      })
      (touched now)

-- `ttl` is the time to live, at least a unit of time as long as a second.
unfoldable pub external_kv_lease :
    (lease_id : String) (second : ℕ)
    → Key
    → (owner : Option String) (mode : String) (ttl : ℕ) → (now : ℕ) → Store
    → Result Store
unfolding change_object
external_kv_lease lease_id second k owner mode ttl now st =
    raise_if (not (any (λ m. m == mode) ("read" ∷ "write" ∷ "prefetch" ∷ "pin" ∷ [])))
      "unsupported external KV lease mode"
    >> change_object k (λ row o. record o { last_used_at = now; updated_at = now }) (touched now)
        (record (drop_expired now st) {
          leases =
              delete (λ l. leb l.expires_at now) st.leases
              ++ record {
                lease_id = lease_id;
                namespace = k.namespace;
                kv_key = k.kv_key;
                service_id = k.service_id;
                mode = mode;
                owner = owner;
                expires_at = now + max second ttl;
                created_at = now;
                updated_at = now;
              }
                ∷ [];
        })

unfoldable pub external_kv_release : (lease_id : String) → Store → Bool × Store
external_kv_release lease_id st = (
  any (λ l. l.lease_id == lease_id) st.leases,
  record st { leases = delete (λ l. l.lease_id == lease_id) st.leases },
)

unfoldable pub external_kv_transition :
    Key
    → (state : String) (shard_state : Option String) (metadata : Option Json) (now : ℕ) → Store
    → Result Store
unfolding change_object merged
external_kv_transition k state shard_state metadata now =
    change_object k
      (λ row o. record o {
        state = state;
        metadata = merged row.metadata metadata;
        updated_at = now;
        last_used_at = now;
      })
      (λ s. elim shard_state [
        | none ↦ s
        | some t ↦ record s { state = t; updated_at = now; last_used_at = now }
      ])

-- max(0, pin_count + delta)
abbrev pub pinned_by : ℕ → ℤ → ℕ
pinned_by n delta = (n + pos_part delta) - neg_part delta

unfoldable pub external_kv_pin : Key → (delta : ℤ) (now : ℕ) → Store → Result Store
unfolding change_object
external_kv_pin k delta now =
    change_object k
      (λ row o. record o {
        pin_count = pinned_by row.pin_count delta;
        updated_at = now;
        last_used_at = now;
      })
      (λ s. s)

-- A missing object is answered as such, with the tables as they were.
unfoldable pub external_kv_evict : Key → (reason : Option String) (now : ℕ) → Store → Result Store
unfolding change_at
external_kv_evict k reason now st = elim (find_object k st) [
  | none ↦ ok st
  | some row ↦
      raise_if (ltb 0 row.pin_count) "cannot evict a pinned external KV object"
      >> ok (
          change_at k
            (λ o. record o {
              state = "evicted";
              metadata = dict (
                  (
                    "evicted_reason",
                    Json.str (elim reason [
                      | none ↦ "operator"
                      | some r ↦ if r == "" then "operator" else r
                    ]),
                  )
                  ∷ []);
              updated_at = now;
              last_used_at = now;
            })
            (λ s. record s {
              state = "evicted";
              gpu_resident = false;
              updated_at = now;
              last_used_at = now;
            })
            st)
]
