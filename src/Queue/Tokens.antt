-- ===== src/Queue/Tokens.antt =====
-- queue.py: the tokens that a request reserves (`_row_reserved_tokens`, `_reserved_prompt_tokens`,
-- `_input_text_bytes`, `_safe_int`) and the token budget of a batch
-- (`_limit_ready_rows_by_token_budget`).
pub mod Budget
use Prim.Native.String.{len}
use ds4_on_spark.Prelude.{
  ℕ, ◌+◌, ◌/◌, min, max, String, ◌&&◌, ◌||◌, Option, none, some, List, [], ◌∷◌, ◌==◌, leb, ltb,
  length, if◌then◌else◌,
}
use ds4_on_spark.Prelude.Int.{ℤ, pos, int-Eq, ltb_ℤ, at_least_zero}
use ds4_on_spark.Json
use ds4_on_spark.Json.{Json, Items, Fields}
use ds4_on_spark.Queue.Tables.{Request}
use ds4_on_spark.Queue.ResultError.{Env}

-- `_safe_int(d.get(k), 0)`
unfoldable pub safe_int : Env → Option Json → ℤ
safe_int env none = pos 0
safe_int env (some (Json.bool b)) = if b then pos 1 else pos 0
safe_int env (some (Json.num n)) = n
safe_int env (some (Json.real t)) = elim (env.int_of_real t) [ none ↦ pos 0 | some n ↦ n ]
safe_int env (some (Json.str s)) = elim (env.int_of_text s) [ none ↦ pos 0 | some n ↦ n ]
safe_int env (some _) = pos 0

-- `a or b` on integers.
abbrev or_int : ℤ → ℤ → ℤ
or_int a b = if a == pos 0 then b else a

-- `d.get(k) if isinstance(d.get(k), dict) else {}`: a value that is no dict has no fields.
abbrev pub sub_dict : Json → String → Json
sub_dict j k = elim (Json.get j k) [
  | none ↦ Json.obj Json.end
  | some v ↦ elim v [ Json.obj fs ↦ Json.obj fs | _ ↦ Json.obj Json.end ]
]

unfoldable mutual
  pub input_text_bytes : Json → ℕ
  input_text_bytes (Json.str s) = len s
  input_text_bytes (Json.arr xs) = item_bytes xs
  input_text_bytes (Json.obj fs) = field_bytes fs
  input_text_bytes _ = 0

  pub item_bytes : Items → ℕ
  item_bytes Json.nil = 0
  item_bytes (Json.cons x xs) = input_text_bytes x + item_bytes xs

  pub field_bytes : Fields → ℕ
  field_bytes Json.end = 0
  field_bytes (Json.field k v fs) = input_text_bytes v + field_bytes fs

unfoldable pub reserved_prompt_tokens : Env → Json → ℕ
unfolding safe_int
reserved_prompt_tokens env input =
    let budget = sub_dict (sub_dict input "metadata") "context_budget" in
    let shape = sub_dict input "benchmark_shape" in
    let openai = sub_dict input "openai" in
    let truncate =
      or_int (safe_int env (Json.get openai "truncate_prompt_tokens"))
        (safe_int env (Json.get budget "truncate_prompt_tokens")) in
    let estimated = or_int (safe_int env (Json.get input "estimated_prompt_tokens")) (
      or_int (safe_int env (Json.get budget "estimated_prompt_tokens"))
        (safe_int env (Json.get shape "input_tokens"))) in
    let prompt_budget = safe_int env (Json.get budget "prompt_budget_tokens") in
    if ltb_ℤ (pos 0) truncate && ltb_ℤ (pos 0) estimated
    then min (at_least_zero truncate) (at_least_zero estimated)
    else if ltb_ℤ (pos 0) truncate
    then at_least_zero truncate
    else if ltb_ℤ (pos 0) estimated
    then at_least_zero estimated
    else if ltb_ℤ (pos 0) prompt_budget
    then at_least_zero prompt_budget
    else max 1 (input_text_bytes input / 4)

-- The decoded tokens, cut to the reserve where there is one.
abbrev decode_tokens : Env → Json → (decode_token_reserve : ℕ) → ℕ
decode_tokens env raw reserve =
    let decode =
      at_least_zero (safe_int env (Json.get raw "max_output_tokens"))
      + at_least_zero (safe_int env (Json.get raw "thinking_budget_tokens")) in
    if ltb 0 reserve then min decode reserve else decode

reserved_of : Env → (decode_token_reserve : ℕ) → Json → ℕ
unfolding reserved_prompt_tokens
reserved_of env reserve (Json.obj fs) = max 1 (
    reserved_prompt_tokens env (sub_dict (Json.obj fs) "input")
    + decode_tokens env (Json.obj fs) reserve)
reserved_of env reserve _ = 1

-- A text that is no JSON, or no JSON object, counts as one token.
unfoldable pub row_reserved_tokens : Env → (decode_token_reserve : ℕ) → Request → ℕ
unfolding reserved_of
row_reserved_tokens env reserve row = elim row.request_json [
  | none ↦ 1
  | some raw ↦ reserved_of env reserve raw
]

-- The loop behind the first row; `used` is what the selected rows reserve.
unfoldable pub within_budget :
    (tokens : Request → ℕ) → (token_limit used : ℕ) → List Request → List Request
within_budget tokens limit used [] = []
within_budget tokens limit used (row ∷ rows) =
    let need = tokens row in
    let taken = leb (used + need) limit in
    let rest = within_budget tokens limit (if taken then used + need else used) rows in
    if taken then row ∷ rest else rest

-- The first row is selected whatever it needs.
unfoldable pub limit_ready_rows_by_token_budget :
    Env → List Request → (token_limit decode_token_reserve : ℕ) → List Request
unfolding within_budget
limit_ready_rows_by_token_budget env [] limit reserve = []
limit_ready_rows_by_token_budget env (row ∷ rows) limit reserve =
    let tokens = row_reserved_tokens env reserve in
    if leb limit 0 || leb (length rows) 0
    then row ∷ rows
    else row ∷ within_budget tokens limit (tokens row) rows
