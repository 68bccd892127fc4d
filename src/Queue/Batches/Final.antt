-- ===== src/Queue/Batches/Final.antt =====
-- `_refresh_batch`: the state of a batch against the counts of its requests.
use ds4_on_spark.Prelude.{
  ℕ, ◌+◌, ◌<◌, ◌≡◌, ◌↔◌, refl, String, Bool, true, false, List, [], ◌∷◌, count, arith, ◌==◌,
  string-Eq, nat-Eq,
}
use ds4_on_spark.Queue.Tables.{State, State-Eq, Request, BatchState}
use ds4_on_spark.Queue.Batches.{counts, total_of, batch_state}

abbrev pub is_final : BatchState → Bool
is_final BatchState.completed = true
is_final BatchState.cancelled = true
is_final BatchState.completed_with_failures = true
is_final BatchState.completed_with_cancelled = true
is_final _ = false

-- A batch's state is final exactly where it has requests and none of them is open.
pub batch_state-final :
    (c : State → ℕ)
    → (is_final (batch_state c) ≡ true) ↔ (
        (0 < total_of c)
        × (c State.queued + c State.prefilling + c State.ready + c State.running ≡ 0))
unfolding batch_state total_of
batch_state-final c = ground arith

-- A batch is completed exactly where it has requests and each of them is completed.
pub batch_state-completed :
    (c : State → ℕ)
    → (batch_state c ≡ BatchState.completed) ↔ ((0 < total_of c) × (total_of c ≡ c State.completed))
unfolding batch_state total_of
batch_state-completed c = ground arith

-- The counts of a batch by state add up to the number of its rows.
pub total_of-counts :
    (rs : List Request) (bid : String)
    → total_of (counts rs bid) ≡ count (λ r. r.batch_id == bid) rs
unfolding total_of counts
total_of-counts [] bid = refl
total_of-counts (r ∷ rs) bid = ground (arith, total_of-counts rs bid)
