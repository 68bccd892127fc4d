-- ===== src/ExternalKv.antt =====
-- queue.py and external_kv_shards.py: KV objects outside the queue, with their shards and leases.
pub mod Manifest
pub mod Calls
pub mod Lookup
pub mod Tests
use ds4_on_spark.Prelude.{
  ℕ, ◌+◌, String, Bool, true, false, not, ◌&&◌, Option, none, some, List, [], ◌∷◌, ◌==◌, string-Eq,
  nat-Eq, if◌then◌else◌, Result, ok, value_error,
}
use ds4_on_spark.Prelude.Int.{ℤ}
use ds4_on_spark.Json.{Json}

-- kv_memory_objects
pub record Object : Type 0 where
  pub namespace : String
  pub kv_key : String
  pub service_id : String
  pub profile_id : Option String
  pub model_id : Option String
  pub owner : Option String
  pub content_hash : Option String
  pub total_bytes : ℕ
  pub total_tokens : ℕ
  pub state : String
  pub pin_count : ℕ
  pub priority : ℤ
  pub ttl_expires_at : Option ℕ
  pub metadata : Json
  pub created_at : ℕ
  pub updated_at : ℕ
  pub last_used_at : ℕ

-- kv_memory_shards
pub record KvShard : Type 0 where
  pub namespace : String
  pub kv_key : String
  pub service_id : String
  pub node_id : String
  pub stage_index : ℕ
  pub stage_count : ℕ
  pub layer_start : Option ℤ
  pub layer_end : Option ℤ
  pub bytes : ℕ
  pub state : String
  pub storage_uri : Option String
  pub gpu_resident : Bool
  pub metadata : Json
  pub created_at : ℕ
  pub updated_at : ℕ
  pub last_used_at : ℕ

-- kv_memory_leases
pub record KvLease : Type 0 where
  pub lease_id : String
  pub namespace : String
  pub kv_key : String
  pub service_id : String
  pub mode : String
  pub owner : Option String
  pub expires_at : ℕ
  pub created_at : ℕ
  pub updated_at : ℕ

pub record Store : Type 0 where
  pub objects : List Object
  pub shards : List KvShard
  pub leases : List KvLease

-- The key of an object.
pub record Key : Type 0 where
  pub namespace : String
  pub kv_key : String
  pub service_id : String

-- where namespace=? and kv_key=? and service_id=?
abbrev pub object_at : Key → Object → Bool
object_at k o = o.namespace == k.namespace && (o.kv_key == k.kv_key && o.service_id == k.service_id)

abbrev pub shard_at : Key → KvShard → Bool
shard_at k s = s.namespace == k.namespace && (s.kv_key == k.kv_key && s.service_id == k.service_id)

abbrev pub lease_at : Key → KvLease → Bool
lease_at k l = l.namespace == k.namespace && (l.kv_key == k.kv_key && l.service_id == k.service_id)

unfoldable pub normalize_namespace : Option String → String
normalize_namespace none = "default"
normalize_namespace (some s) = if s == "" then "default" else s

unfoldable pub require_kv_key : Option String → Result String
require_kv_key none = value_error "kv_key is required"
require_kv_key (some s) = if s == "" then value_error "kv_key is required" else ok s

unfoldable pub require_service_id : Option String → Result String
require_service_id none = value_error "service_id is required"
require_service_id (some s) = if s == "" then value_error "service_id is required" else ok s
