-- ===== src/Queue/Shape.antt =====
-- queue.py: batching by request shape (`_ready_shape_key`, `_ready_shape_bucket`).
use ds4_on_spark.Prelude.{
  ℕ, min, String, none, some, List, [], ◌∷◌, ◌++◌, ◌==◌, string-Eq, ltb, length, take,
  if◌then◌else◌,
}
use ds4_on_spark.Json
use ds4_on_spark.Json.{Json, dict}
use ds4_on_spark.Queue.Tables.{Request}
use ds4_on_spark.Queue.ResultError.{Env}
use ds4_on_spark.Queue.Tokens.{sub_dict}

-- `d.get(k)` as a value, None where the key is missing.
abbrev or_null : Json → String → Json
or_null j k = elim (Json.get j k) [ none ↦ Json.null | some v ↦ v ]

shape_of : Env → Json → String
shape_of env (Json.obj fs) =
    let raw = Json.obj fs in
    let input = sub_dict raw "input" in
    env.dumps (
      dict (
        ("benchmark_output_tokens", or_null (sub_dict input "benchmark_shape") "output_tokens")
        ∷ ("chat", or_null raw "chat")
        ∷ ("max_output_tokens", or_null raw "max_output_tokens")
        ∷ ("openai", sub_dict input "openai")
        ∷ ("openai_extra_body", sub_dict input "openai_extra_body")
        ∷ ("temperature", or_null raw "temperature")
        ∷ ("thinking_budget_tokens", or_null raw "thinking_budget_tokens")
        ∷ ("top_p", or_null raw "top_p")
        ∷ []))
shape_of env _ = "_invalid"

unfoldable pub ready_shape_key : Env → Request → String
unfolding shape_of
ready_shape_key env row = elim row.request_json [ none ↦ "_invalid" | some raw ↦ shape_of env raw ]

-- The dict of buckets, in the order in which their keys first came.
abbrev pub Buckets : Type 0
Buckets = List (String × List Request)

-- `buckets[key].append(row)`, with a new bucket at the end for a new key.
unfoldable pub add_row : String → Request → Buckets → Buckets
add_row key row [] = (key, row ∷ []) ∷ []
add_row key row ((k, rs) ∷ bs) =
    if k == key then (k, rs ++ row ∷ []) ∷ bs else (k, rs) ∷ add_row key row bs

unfoldable pub buckets_of : (Request → String) → List Request → Buckets → Buckets
unfolding add_row
buckets_of key [] bs = bs
buckets_of key (row ∷ rows) bs = buckets_of key rows (add_row (key row) row bs)

-- `max(…, key=(min(len, limit), -first_index))`: the buckets come by first index, so a later one
-- wins only by its size.
unfoldable pub best_of : ℕ → List Request → Buckets → List Request
best_of limit best [] = best
best_of limit best ((k, rs) ∷ bs) =
    best_of limit (if ltb (min (length best) limit) (min (length rs) limit) then rs else best) bs

unfoldable pub ready_shape_bucket : Env → List Request → ℕ → List Request
unfolding buckets_of best_of ready_shape_key
ready_shape_bucket env rows limit =
    take limit (best_of limit [] (buckets_of (ready_shape_key env) rows []))
