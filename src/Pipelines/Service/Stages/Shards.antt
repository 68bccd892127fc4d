-- ===== src/Pipelines/Service/Stages/Shards.antt =====
-- pipelines.py: the KV shards of a service, their number and their bytes.
use native.Mathlib.Nat.{suc-mul, div-add-mod, mod-lt, mul-le-mul_right}
use ds4_on_spark.Prelude.{
  ◌<◌, ◌^◌, lt→ltb, ltb, true, ℕ, ◌+◌, ◌-◌, ◌*◌, ◌≤◌, ◌≡◌, refl, sym, max, String, false, List, [],
  ◌∷◌, map, length, sum_by, arith, inl, inr, Bool-cases, ◌==◌, string-Eq, nat-Eq, subst,
}
use ds4_on_spark.Queue.Kv.{Shard, ceil_div}
use ds4_on_spark.Pipelines.Service.{PipelineService}
use ds4_on_spark.Pipelines.Service.Valid.{IsService}
use ds4_on_spark.Pipelines.Service.Stages.{
  PipelineStage, stages, cache_shards, estimate_kv_shard_bytes, is_replicated, shard_on,
}
use ds4_on_spark.Pipelines.Service.Stages.Laws.{stages-Tiles}

ceil_div-bound : (a n : ℕ) → 1 ≤ n → a < 2 ^ 53 → a ≤ n * ceil_div a n
unfolding ceil_div
ceil_div-bound a n some_part exact =
    let small : ltb a (2 ^ 53) ≡ true = lt→ltb a (2 ^ 53) exact in
    let e = div-add-mod (a + (n - 1)) n in
    let r = mod-lt (a + (n - 1)) some_part in
    let d : max 1 n ≡ n = omega (arith, some_part) in rw (small, d) (omega (arith, e, r))

sum_bytes :
    (f : PipelineStage → Shard) (bytes : ℕ) (rest : List PipelineStage)
    → ((stage : PipelineStage) → (f stage).bytes ≡ bytes)
    → sum_by (λ (x : Shard). x.bytes) (map f rest) ≡ length rest * bytes
sum_bytes f bytes [] same_bytes = omega arith
sum_bytes f bytes (s ∷ rest) same_bytes =
    omega (arith, sum_bytes f bytes rest same_bytes, same_bytes s, suc-mul (length rest) bytes)

estimate-bound :
    (s : PipelineService) (total_bytes : ℕ)
    → 1 ≤ length s.node_ids
    → total_bytes < 2 ^ 53
    → total_bytes ≤ length s.node_ids * estimate_kv_shard_bytes s total_bytes
unfolding estimate_kv_shard_bytes
estimate-bound s total_bytes placed exact = elim (Bool-cases (is_replicated s)) [
  | inl whole ↦ rw whole (omega (arith, mul-le-mul_right total_bytes placed))
  | inr split ↦ rw split (ceil_div-bound total_bytes (length s.node_ids) placed exact)
]

length-map : (f : PipelineStage → Shard) (xs : List PipelineStage) → length (map f xs) ≡ length xs
length-map f [] = refl
length-map f (x ∷ xs) = omega (arith, length-map f xs)

cache_shards-map :
    (s : PipelineService) (request_id kv_key : String) (total_bytes : ℕ)
    → (kv_key == "") ≡ false
    → 1 ≤ total_bytes
    → cache_shards s request_id kv_key total_bytes
      ≡ map (shard_on (estimate_kv_shard_bytes s total_bytes)) (stages s)
unfolding cache_shards
cache_shards-map s request_id kv_key total_bytes named some_bytes =
    let counted : (total_bytes == 0) ≡ false = ground (arith, some_bytes) in
    rw (named, counted) refl

-- On an accepted service a KV object with a key, and with at least one byte and fewer than 2 ^ 53, has
-- one shard for each node, and together they hold at least its bytes.
pub cache_shards_bound :
    (known : List String) (s : PipelineService) (request_id kv_key : String) (total_bytes : ℕ)
    → IsService known s
    → (kv_key == "") ≡ false
    → 1 ≤ total_bytes
    → total_bytes < 2 ^ 53
    → (length (cache_shards s request_id kv_key total_bytes) ≡ length s.node_ids)
      × (total_bytes ≤ sum_by (λ x. x.bytes) (cache_shards s request_id kv_key total_bytes))
cache_shards_bound known s request_id kv_key total_bytes v named some_bytes exact =
    let bytes = estimate_kv_shard_bytes s total_bytes in
    let shards = map (shard_on bytes) (stages s) in
    let staged = (stages-Tiles known s v).1 in
    subst
      (λ (x : List Shard).
        (length x ≡ length s.node_ids) × (total_bytes ≤ sum_by (λ (y : Shard). y.bytes) x))
      (sym (cache_shards-map s request_id kv_key total_bytes named some_bytes))
      (
        omega (arith, length-map (shard_on bytes) (stages s), staged),
        rw (sum_bytes (shard_on bytes) bytes (stages s) (λ x. refl), staged)
            (estimate-bound s total_bytes v.placed exact),
      )
