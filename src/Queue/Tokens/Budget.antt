-- ===== src/Queue/Tokens/Budget.antt =====
-- `_limit_ready_rows_by_token_budget`: what the rows that pass it reserve.
use ds4_on_spark.Prelude.{
  ℕ, ◌+◌, ◌≤◌, ◌<◌, List, [], ◌∷◌, sum_by, leb, max, inl, inr, Bool-cases, arith, nat-Eq,
}
use ds4_on_spark.Queue.Tables.{Request}
use ds4_on_spark.Queue.ResultError.{Env}
use ds4_on_spark.Queue.Tokens.{within_budget, limit_ready_rows_by_token_budget, row_reserved_tokens}

sum_by-within_budget :
    (tokens : Request → ℕ) (limit used : ℕ) (rows : List Request)
    → used + sum_by tokens (within_budget tokens limit used rows) ≤ max limit used
unfolding within_budget
sum_by-within_budget tokens limit used [] = omega arith
sum_by-within_budget tokens limit used (row ∷ rows) =
    elim (Bool-cases (leb (used + tokens row) limit)) [
      | inl e ↦
          let rest = sum_by-within_budget tokens limit (used + tokens row) rows in
          rw e (ground (arith, e, rest))
      | inr e ↦ rw e (sum_by-within_budget tokens limit used rows)
    ]

-- Under a token limit, the rows that are taken reserve no more than the limit together, or no more
-- than the first row alone where that row exceeds it.
pub limit_ready_rows_by_token_budget-bound :
    (env : Env) (limit reserve : ℕ) (row : Request) (rows : List Request)
    → 0 < limit
    → sum_by
        (row_reserved_tokens env reserve)
        (limit_ready_rows_by_token_budget env (row ∷ rows) limit reserve)
      ≤ max limit (row_reserved_tokens env reserve row)
unfolding limit_ready_rows_by_token_budget
limit_ready_rows_by_token_budget-bound env limit reserve row [] h = ground arith
limit_ready_rows_by_token_budget-bound env limit reserve row (second ∷ rows) h =
    let tokens = row_reserved_tokens env reserve in
    ground (arith, sum_by-within_budget tokens limit (tokens row) (second ∷ rows))
