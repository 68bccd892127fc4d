-- ===== src/JitKv.antt =====
-- v2/src/ds4_infer/jit_kv.py: the circuit breaker of the JIT KV prefetch. Times are whole
-- milliseconds, and the failure ratio is whole thousandths.
pub mod Steps
pub mod Opens
pub mod Failures
pub mod Prefetch
pub mod Tests
use ds4_on_spark.Prelude.{
  ℕ, ◌+◌, ◌-◌, ◌*◌, min, max, String, Bool, true, false, not, ◌&&◌, ◌||◌, Option, none, some, List,
  [], ◌∷◌, ◌++◌, length, count, ltb, leb, ◌==◌, nat-Eq, string-Eq, if◌then◌else◌,
}
use ds4_on_spark.Prelude.Int.{ℤ, at_least_zero}

-- The constructor's arguments, as it keeps them.
pub record Config : Type 0 where
  pub enabled : Bool
  pub window : ℕ
  pub min_samples : ℕ
  pub failure_ratio : ℕ
  pub cooldown : ℕ

unfoldable pub configured :
    (enabled : Bool) (window : ℕ) (min_samples : ℤ) (failure_ratio : ℤ) (cooldown : ℕ) → Config
configured enabled window min_samples failure_ratio cooldown = record {
  enabled = enabled;
  window = max 1000 window;
  min_samples = max 1 (at_least_zero min_samples);
  failure_ratio = min 1000 (at_least_zero failure_ratio);
  cooldown = max 1000 cooldown;
}

-- A sample is its time and whether the call succeeded.
pub record Breaker : Type 0 where
  pub open_until : ℕ
  pub samples : List (ℕ × Bool)
  pub submitted_count : ℕ
  pub completed_count : ℕ
  pub failed_count : ℕ
  pub gate_released_count : ℕ
  pub last_error : Option String

abbrev pub fresh : Breaker
fresh = record {
  open_until = 0;
  samples = [];
  submitted_count = 0;
  completed_count = 0;
  failed_count = 0;
  gate_released_count = 0;
  last_error = none;
}

unfoldable pub allow_prefetch : Config → (now : ℕ) → Breaker → Bool
allow_prefetch c now b = not c.enabled || leb b.open_until now

unfoldable pub record_submission : Breaker → Breaker
record_submission b = record b { submitted_count = b.submitted_count + 1 }

-- `while self._samples and self._samples[0][0] < cutoff`, with cutoff = now - window
unfoldable pub drop_old : (now window : ℕ) → List (ℕ × Bool) → List (ℕ × Bool)
drop_old now window [] = []
drop_old now window ((t, success) ∷ rest) =
    if ltb (t + window) now then drop_old now window rest else (t, success) ∷ rest

unfoldable pub prune : Config → (now : ℕ) → Breaker → Breaker
unfolding drop_old
prune c now b = record b { samples = drop_old now c.window b.samples }

abbrev pub is_failure : ℕ × Bool → Bool
is_failure (t, success) = not success

-- failed / len(samples) >= failure_ratio, where there are samples
abbrev pub ratio_reached : Config → List (ℕ × Bool) → Bool
ratio_reached c samples = leb (c.failure_ratio * length samples) (count is_failure samples * 1000)

-- `str(error)[-1000:]` is an argument: the text that is kept.
abbrev pub noted : Option String → Option String → Option String
noted none old = old
noted (some e) old = if e == "" then old else some e

-- The last part of `_record`, after the pruning.
unfoldable pub judge : Config → (now : ℕ) → Breaker → Breaker
judge c now b =
    if ltb (length b.samples) c.min_samples
    then b
    else if ratio_reached c b.samples
    then record b { open_until = max b.open_until (now + c.cooldown) }
    else b

unfoldable pub record_sample :
    Config → (now : ℕ) (success : Bool) (error : Option String) → Breaker → Breaker
unfolding prune judge
record_sample c now success error b =
    if c.enabled
    then judge c now (
        prune c now (record b {
          samples = b.samples ++ (now, success) ∷ [];
          last_error = noted error b.last_error;
        }))
    else b

unfoldable pub record_success : Config → (now : ℕ) → Breaker → Breaker
unfolding record_sample
record_success c now b =
    record_sample c now true none (record b { completed_count = b.completed_count + 1 })

unfoldable pub record_failure : Config → (now : ℕ) (error : Option String) → Breaker → Breaker
unfolding record_sample
record_failure c now error b =
    record_sample c now false error (record b { failed_count = b.failed_count + 1 })

unfoldable pub record_gate_release : (count : ℤ) → Breaker → Breaker
record_gate_release n b = record b { gate_released_count = b.gate_released_count + at_least_zero n }

-- The fields of `status` that are not counters: whether it is open, until when, and the ratio as the
-- failures and the samples.
pub record Status : Type 0 where
  pub is_open : Bool
  pub open_until : Option ℕ
  pub failures : ℕ
  pub samples : ℕ

unfoldable pub status : Config → (now : ℕ) → Breaker → Status × Breaker
unfolding prune
status c now b =
    let pruned = prune c now b in
    let is_open = c.enabled && ltb now b.open_until in
    (
      record {
        is_open = is_open;
        open_until = if is_open then some b.open_until else none;
        failures = count is_failure pruned.samples;
        samples = length pruned.samples;
      },
      pruned,
    )
