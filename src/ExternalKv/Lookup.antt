-- ===== src/ExternalKv/Lookup.antt =====
-- queue.py: the queries on external KV objects, `external_kv_lookup` and `external_kv_list`. An answer
-- is the rows whose columns it shows.
use ds4_on_spark.Prelude.{
  ℕ, String, Bool, true, ◌&&◌, ◌||◌, Option, none, some, List, map, take, ltb, leb, max, min, ◌==◌,
  string-Eq, nat-Eq, holds,
}
use ds4_on_spark.Prelude.Int.{ltb_ℤ, int-Eq}
use ds4_on_spark.Sql.{select, delete, order_by}
use ds4_on_spark.ExternalKv.{Object, KvShard, KvLease, Store, Key, shard_at, lease_at}
use ds4_on_spark.ExternalKv.Calls.{drop_expired}

-- `_external_kv_manifest`: an object with its shards and its leases.
pub record Manifested : Type 0 where
  pub object : Object
  pub shards : List KvShard
  pub leases : List KvLease

abbrev key_of : Object → Key
key_of o = record { namespace = o.namespace; kv_key = o.kv_key; service_id = o.service_id }

-- order by stage_index, node_id
abbrev pub by_stage : (text_before : String → String → Bool) → KvShard → KvShard → Bool
by_stage text_before a b =
    ltb a.stage_index b.stage_index
    || a.stage_index == b.stage_index && text_before a.node_id b.node_id

-- The leases are in the order of their creation. `text_before` is `<` on texts.
unfoldable pub external_kv_manifest :
    (text_before : String → String → Bool) (now : ℕ) → Store → Object → Manifested
external_kv_manifest text_before now st o = record {
  object = o;
  shards = order_by (by_stage text_before) (select (shard_at (key_of o)) st.shards);
  leases =
      order_by (λ a b. ltb a.created_at b.created_at)
        (select (lease_at (key_of o)) (delete (λ l. leb l.expires_at now) st.leases));
}

abbrev of_service : Option String → Object → Bool
of_service none o = true
of_service (some s) o = o.service_id == s

-- `_external_kv_object_rows`
unfoldable pub external_kv_object_rows :
    (text_before : String → String → Bool)
    → (namespace kv_key : String) (service_id : Option String) → Store
    → List Object
external_kv_object_rows text_before namespace kv_key service_id st =
    order_by (λ a b. text_before a.service_id b.service_id)
      (select (λ o. o.namespace == namespace && (o.kv_key == kv_key && of_service service_id o))
        st.objects)

-- No object stands for the state `missing`.
unfoldable pub external_kv_lookup :
    (text_before : String → String → Bool)
    → (namespace kv_key : String) (service_id : Option String) (now : ℕ) → Store
    → List Manifested × Store
unfolding external_kv_manifest external_kv_object_rows
external_kv_lookup text_before namespace kv_key service_id now st = (
  map (external_kv_manifest text_before now st)
      (external_kv_object_rows text_before namespace kv_key service_id st),
  drop_expired now st,
)

-- The filters of a list; `like` is whether a key matches the pattern made of the prefix.
pub record Filter : Type 0 where
  pub service_id : Option String
  pub owner : Option String
  pub state : Option String
  pub prefix : Option String

abbrev asks : Option String → (String → Bool) → Bool
asks none p = true
asks (some s) p = p s

abbrev passes : (like : String → String → Bool) → (namespace : String) → Filter → Object → Bool
passes like namespace f o =
    o.namespace == namespace
    && (asks f.service_id (λ s. o.service_id == s)
        && (asks f.owner (holds o.owner)
            && (asks f.state (λ s. o.state == s) && asks f.prefix (λ s. like s o.kv_key))))

-- order by priority, last_used_at desc, updated_at desc
abbrev listed_before : Object → Object → Bool
listed_before a b =
    ltb_ℤ a.priority b.priority
    || a.priority == b.priority
      && (ltb b.last_used_at a.last_used_at
          || a.last_used_at == b.last_used_at && ltb b.updated_at a.updated_at)

unfoldable pub external_kv_list :
    (like : String → String → Bool)
    → (namespace : String) → Filter
    → (limit now : ℕ) → Store
    → List Object × Store
external_kv_list like namespace f limit now st = (
  take (max 1 (min 10000 limit))
      (order_by listed_before (select (passes like namespace f) st.objects)),
  drop_expired now st,
)
