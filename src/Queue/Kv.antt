-- ===== src/Queue/Kv.antt =====
-- queue.py: the KV ledger (`_kv_victims_to_fit`, `_reserve_kv`, `_reserve_legacy_kv`,
-- `_reserve_pipeline_kv`, `_row_node_ids`).
pub mod Capacity
use ds4_on_spark.Prelude.{
  zero, suc, ◌^◌, ◌*◌, ◌%◌, ℕ, ◌+◌, ◌-◌, ◌/◌, max, String, Bool, true, false, not, ◌&&◌, ◌||◌,
  Option, none, some, List, [], ◌∷◌, ◌++◌, ◌==◌, string-Eq, nat-Eq, leb, ltb, length, sum_by, map,
  if◌then◌else◌,
}
use ds4_on_spark.Sql.{select, delete, order_by}
use ds4_on_spark.Queue.Tables.{
  Request, KvEntry, KvShardEntry, KvState, is_idle, Db, non_empty, or_empty,
}
use ds4_on_spark.Queue.Batches.{update_requests}

-- The loop over the idle entries, oldest first: the keys to drop, and what stays used.
unfoldable pub fit : (capacity need used : ℕ) → List (String × ℕ) → List String × ℕ
fit capacity need used [] = ([], used)
fit capacity need used ((key, bytes) ∷ victims) =
    let (out, left) = fit capacity need (used - bytes) victims in
    if leb (used + need) capacity then ([], used) else (key ∷ out, left)

unfoldable pub victims_to_fit : (capacity need used : ℕ) → List (String × ℕ) → Option (List String)
unfolding fit
victims_to_fit capacity need used victims =
    let (out, left) = fit capacity need used victims in
    if leb capacity 0 then some [] else if ltb capacity (left + need) then none else some out

-- The two tables that the routine reads.
abbrev pub on_node : String → KvEntry → Bool
on_node node_id e = e.node_id == node_id

abbrev pub on_stage : String → String → KvShardEntry → Bool
on_stage service_id node_id e = e.service_id == service_id && e.node_id == node_id

-- select coalesce(sum(bytes),0) … where node_id=?
unfoldable pub node_bytes : String → List KvEntry → ℕ
node_bytes node_id es = sum_by (λ e. e.bytes) (select (on_node node_id) es)

unfoldable pub stage_bytes : String → String → List KvShardEntry → ℕ
stage_bytes service_id node_id es = sum_by (λ e. e.bytes) (select (on_stage service_id node_id) es)

-- … and state='idle' order by last_used_at, created_at
unfoldable pub idle_entries : String → List KvEntry → List KvEntry
idle_entries node_id es =
    order_by
      (λ a b.
        ltb a.last_used_at b.last_used_at
        || a.last_used_at == b.last_used_at && ltb a.created_at b.created_at)
      (select (λ e. on_node node_id e && is_idle e.state) es)

unfoldable pub idle_shards : String → String → List KvShardEntry → List KvShardEntry
idle_shards service_id node_id es =
    order_by
      (λ a b.
        ltb a.last_used_at b.last_used_at
        || a.last_used_at == b.last_used_at && ltb a.created_at b.created_at)
      (select (λ e. on_stage service_id node_id e && is_idle e.state) es)

abbrev pub entry_cost : KvEntry → String × ℕ
entry_cost e = (e.kv_key, e.bytes)

abbrev pub shard_cost : KvShardEntry → String × ℕ
shard_cost e = (e.kv_key, e.bytes)

-- `for victim in victims: delete …`
unfoldable pub drop_keys : String → List String → List KvEntry → List KvEntry
drop_keys node_id [] es = es
drop_keys node_id (k ∷ ks) es =
    drop_keys node_id ks (delete (λ e. e.node_id == node_id && e.kv_key == k) es)

unfoldable pub drop_shard_keys :
    (service_id node_id : String) → List String → List KvShardEntry → List KvShardEntry
drop_shard_keys service_id node_id [] es = es
drop_shard_keys service_id node_id (k ∷ ks) es =
    drop_shard_keys service_id node_id ks
      (delete (λ e. on_stage service_id node_id e && e.kv_key == k) es)

-- insert or replace, on the primary key (node_id, kv_key)
unfoldable pub put_entry : KvEntry → List KvEntry → List KvEntry
put_entry e es = delete (λ f. f.node_id == e.node_id && f.kv_key == e.kv_key) es ++ e ∷ []

unfoldable pub put_shard : KvShardEntry → List KvShardEntry → List KvShardEntry
put_shard e es =
    delete (λ f. on_stage e.service_id e.node_id f && f.kv_key == e.kv_key) es ++ e ∷ []

abbrev pub new_entry : String → String → String → ℕ → ℕ → KvEntry
new_entry node_id key request_id need now = record {
  node_id = node_id;
  kv_key = key;
  request_id = request_id;
  bytes = need;
  state = KvState.ready;
  last_used_at = now;
  created_at = now;
}

-- None of the victims are dropped where they do not make enough room.
unfoldable pub reserve_on_node :
    (node_id key request_id : String) (need capacity now : ℕ) → List KvEntry → Bool × List KvEntry
reserve_on_node node_id key request_id need capacity now es =
    elim (victims_to_fit capacity need (node_bytes node_id es)
      (map entry_cost (idle_entries node_id es))) [
        | none ↦ (false, es)
        | some victims ↦ (
          true,
          put_entry (new_entry node_id key request_id need now) (drop_keys node_id victims es),
        )
      ]

unfoldable pub reserve_legacy_kv :
    Request → (node_id : Option String) (key : String) (need capacity now : ℕ) → Db → Bool × Db
unfolding reserve_on_node
reserve_legacy_kv row none key need capacity now db = (false, db)
reserve_legacy_kv row (some node_id) key need capacity now db =
    let (kept, es) = reserve_on_node node_id key row.request_id need capacity now db.kv_entries in
    (kept, record db { kv_entries = es })

-- One shard of a KV object, as `cache_shards` of a layout and the fallback list give it; a missing
-- `stage_count` is 0.
pub record Shard : Type 0 where
  pub node_id : String
  pub stage_index : ℕ
  pub stage_count : ℕ
  pub layer_start : Option ℕ
  pub layer_end : Option ℕ
  pub bytes : ℕ

-- `pipeline_layout.cache_shards(request_id=…, kv_key=…, total_bytes=…)`
abbrev pub Layout : Type 0
Layout = (request_id kv_key : String) (total_bytes : ℕ) → List Shard

-- The whole number that a fraction rounds to, the even one of two that are as near.
abbrev round_even : (a d : ℕ) → ℕ
round_even a d =
    let q = a / d in
    let twice = 2 * (a % d) in if ltb twice d || (twice == d && q % 2 == 0) then q else q + 1

-- A quotient of whole numbers as a float, at least 2 ^ 52: the multiple of a power of two, by `fuel`
-- doublings of `unit`, that has 53 bits.
float_up : (fuel a d unit : ℕ) → ℕ
float_up zero a d unit = unit * round_even a (d * unit)
float_up (suc fuel) a d unit =
    let coarser = float_up fuel a d (2 * unit) in
    if ltb a (d * unit * 2 ^ 53) then unit * round_even a (d * unit) else coarser

-- The ceiling of a quotient below 2 ^ 52 as a float, a multiple of 1 / unit.
float_down : (fuel a d unit : ℕ) → ℕ
float_down zero a d unit = (round_even (a * unit) d + (unit - 1)) / unit
float_down (suc fuel) a d unit =
    let finer = float_down fuel a d (2 * unit) in
    if leb (d * 2 ^ 52) (a * unit) then (round_even (a * unit) d + (unit - 1)) / unit else finer

-- math.ceil(a / max(1, n)), where the quotient is a float, correctly rounded. Below 2 ^ 53 a quotient
-- that is not whole is further from the next whole number below than the rounding moves it, so that
-- the ceiling is exact. From there on the quotient is rounded as Python does; SQLite keeps whole
-- numbers below 2 ^ 63, so that ten doublings upwards and fifty-two downwards are enough.
unfoldable pub ceil_div : ℕ → ℕ → ℕ
unfolding float_up float_down
ceil_div a n =
    let d = max 1 n in
    if ltb a (2 ^ 53)
    then (a + (d - 1)) / d
    else if leb (d * 2 ^ 52) a
    then float_up 10 a d 1
    else float_down 52 a d 1

even_shards : (count bytes index : ℕ) → List String → List Shard
even_shards count bytes index [] = []
even_shards count bytes index (node ∷ nodes) =
    record {
      node_id = node;
      stage_index = index;
      stage_count = count;
      layer_start = none;
      layer_end = none;
      bytes = bytes;
    }
    ∷ even_shards count bytes (index + 1) nodes

unfoldable pub shards_of :
    Request → List String → (key : String) (need : ℕ) → Option Layout → List Shard
unfolding even_shards
shards_of row node_ids key need (some layout) = layout row.request_id key need
shards_of row node_ids key need none =
    let n = length node_ids in
    let shard_bytes = if row.kv_shard_bytes == 0 then ceil_div need n else row.kv_shard_bytes in
    even_shards n shard_bytes 0 node_ids

-- The first loop: the victims of each shard, all found in the table as it is; none where a shard
-- does not fit.
unfoldable pub evictions :
    (service_id : String) (capacity : ℕ)
    → List KvShardEntry
    → List Shard
    → Option (List (String × List String))
unfolding victims_to_fit stage_bytes idle_shards
evictions service_id capacity es [] = some []
evictions service_id capacity es (s ∷ shards) =
    elim (victims_to_fit capacity s.bytes (stage_bytes service_id s.node_id es)
      (map shard_cost (idle_shards service_id s.node_id es))) [
        | none ↦ none
        | some victims ↦ elim (evictions service_id capacity es shards) [
          | none ↦ none
          | some rest ↦ some ((s.node_id, victims) ∷ rest)
        ]
      ]

unfoldable pub evict :
    (service_id : String) → List (String × List String) → List KvShardEntry → List KvShardEntry
unfolding drop_shard_keys
evict service_id [] es = es
evict service_id ((node_id, victims) ∷ rest) es =
    evict service_id rest (drop_shard_keys service_id node_id victims es)

abbrev pub new_shard : String → String → String → (stage_count now : ℕ) → Shard → KvShardEntry
new_shard service_id key request_id stage_count now s = record {
  service_id = service_id;
  node_id = s.node_id;
  kv_key = key;
  request_id = request_id;
  stage_index = s.stage_index;
  stage_count = if s.stage_count == 0 then stage_count else s.stage_count;
  layer_start = s.layer_start;
  layer_end = s.layer_end;
  bytes = s.bytes;
  state = KvState.ready;
  last_used_at = now;
  created_at = now;
}

-- The second loop.
unfoldable pub put_shards :
    (service_id key request_id : String) (stage_count now : ℕ)
    → List Shard
    → List KvShardEntry
    → List KvShardEntry
unfolding put_shard
put_shards service_id key request_id stage_count now [] es = es
put_shards service_id key request_id stage_count now (s ∷ shards) es =
    put_shards service_id key request_id stage_count now shards
      (put_shard (new_shard service_id key request_id stage_count now s) es)

unfoldable pub max_bytes : List Shard → ℕ
max_bytes [] = 0
max_bytes (s ∷ shards) = max s.bytes (max_bytes shards)

unfoldable pub reserve_pipeline_kv :
    Request
    → (service_id : String) (node_ids : List String) (key : String) (need capacity now : ℕ)
    → Option Layout
    → Db
    → Bool × Db
unfolding shards_of evictions evict put_shards max_bytes
reserve_pipeline_kv row service_id node_ids key need capacity now layout db =
    let shards = shards_of row node_ids key need layout in
    let stage_count = max 1 (length shards) in
    if length shards == 0
    then (true, db)
    else elim (evictions service_id capacity db.kv_shard_entries shards) [
      | none ↦ (false, db)
      | some drops ↦ (
        true,
        update_requests (λ r. r.request_id == row.request_id)
            (λ r. record r { kv_shard_count = stage_count; kv_shard_bytes = max_bytes shards })
            (record db {
              kv_shard_entries =
                  put_shards service_id key row.request_id stage_count now shards
                    (evict service_id drops db.kv_shard_entries);
            }),
      )
    ]

-- `_row_node_ids`: the listed nodes that have a name, else the fallback.
unfoldable pub row_node_ids : Request → Option String → List String
row_node_ids row fallback =
    let listed : List String = elim row.selected_node_ids [
      | none ↦ []
      | some ids ↦ select (λ i. not (i == "")) ids
    ] in
    let instead : List String = elim (non_empty fallback) [ none ↦ [] | some f ↦ f ∷ [] ] in
    if length listed == 0 then instead else listed

unfoldable pub reserve_kv :
    Request → (node_id : Option String) (capacity now : ℕ) → Option Layout → Db → Bool × Db
unfolding reserve_legacy_kv reserve_pipeline_kv row_node_ids
reserve_kv row node_id capacity now layout db =
    let key = or_empty row.kv_key in
    let need = row.kv_bytes in
    let service_id = or_empty row.selected_service_id in
    let node_ids = row_node_ids row node_id in
    if key == "" || need == 0
    then (true, db)
    else if not (service_id == "") && ltb 1 (length node_ids)
    then reserve_pipeline_kv row service_id node_ids key need capacity now layout db
    else reserve_legacy_kv row node_id key need capacity now db
