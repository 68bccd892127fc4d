-- ===== src/JitKv/Failures.antt =====
-- jit_kv.py: a circuit opens on failures alone.
use native.Mathlib.Nat.{mul-pos}
use ds4_on_spark.Prelude.{
  ℕ, ◌+◌, ◌*◌, ◌≤◌, ◌<◌, ◌≡◌, refl, String, Bool, true, false, Option, none, List, [], ◌∷◌, ◌++◌,
  length, count, ltb, leb, ◌⊎◌, inl, inr, Bool-cases, arith, if◌then◌else◌,
}
use ds4_on_spark.JitKv.{
  Config, Breaker, fresh, allow_prefetch, record_submission, drop_old, prune, judge, record_sample,
  record_success, record_failure, record_gate_release, status, is_failure,
}
use ds4_on_spark.JitKv.Steps.{
  Step, submits, succeeds, fails, releases, reports, Reach, here, then_step, sampled, opened,
}
use ds4_on_spark.JitKv.Opens.{judge-either, record_sample-either}

-- The samples that failed have been counted, and none has opened the circuit where there are none.
record Counted (b : Breaker) : Type 0 where
  failures : count is_failure b.samples ≤ b.failed_count
  caused : (b.open_until ≡ 0) ⊎ (1 ≤ b.failed_count)

count-drop_old :
    (now window : ℕ) (samples : List (ℕ × Bool))
    → count is_failure (drop_old now window samples) ≤ count is_failure samples
unfolding drop_old
count-drop_old now window [] = omega arith
count-drop_old now window ((t, success) ∷ rest) = elim (Bool-cases (ltb (t + window) now)) [
  | inl old ↦ rw old (omega (arith, count-drop_old now window rest))
  | inr kept ↦ rw kept (omega arith)
]

count-snoc :
    (samples : List (ℕ × Bool)) (now : ℕ) (success : Bool)
    → count is_failure (samples ++ (now, success) ∷ [])
      ≡ count is_failure samples + (if success then 0 else 1)
count-snoc [] now true = refl
count-snoc [] now false = refl
count-snoc ((t, s) ∷ rest) now success = omega (arith, count-snoc rest now success)

module _ (c : Config) (some_ratio : 1 ≤ c.failure_ratio) (some_samples : 1 ≤ c.min_samples) where
  judge-Counted : (now : ℕ) (b : Breaker) → Counted b → Counted (judge c now b)
  unfolding opened
  judge-Counted now b v = judge-either c now b Counted v λ enough reached.
      let many : 1 ≤ length b.samples = ground (arith, enough, some_samples) in
      let product : 0 < c.failure_ratio * length b.samples =
        mul-pos (omega (arith, some_ratio)) (omega (arith, many)) in
      let failed : 1 ≤ count is_failure b.samples = ground (arith, reached, product) in
      record { failures = v.failures; caused = inr (omega (arith, failed, v.failures)) }

  record_sample-Counted :
      (now : ℕ) (success : Bool) (error : Option String) (b : Breaker)
      → count is_failure b.samples + (if success then 0 else 1) ≤ b.failed_count
      → (b.open_until ≡ 0) ⊎ (1 ≤ b.failed_count)
      → Counted (record_sample c now success error b)
  unfolding prune
  record_sample-Counted now success error b room caused =
      record_sample-either c now success error b Counted
        (record { failures = omega (arith, room); caused = caused })
        (judge-Counted now (sampled c now success error b) (record {
          failures = omega (
            arith,
            count-drop_old now c.window (b.samples ++ (now, success) ∷ []),
            count-snoc b.samples now success,
            room,
          );
          caused = caused;
        }))

  Step-Counted :
      {clock : ℕ} {b : Breaker} {now : ℕ} {d : Breaker}
      → Step c clock b now d
      → Counted b
      → Counted d
  unfolding record_submission record_success record_failure record_gate_release status prune
  Step-Counted submits v = record { failures = v.failures; caused = v.caused }
  Step-Counted {b = b} (succeeds now le) v =
      record_sample-Counted now true none (record b { completed_count = b.completed_count + 1 })
        (omega (arith, v.failures)) v.caused
  Step-Counted {b = b} (fails now error le) v =
      record_sample-Counted now false error (record b { failed_count = b.failed_count + 1 })
        (omega (arith, v.failures)) (inr (omega arith))
  Step-Counted (releases n) v = record { failures = v.failures; caused = v.caused }
  Step-Counted {b = b} (reports now le) v = record {
    failures = omega (arith, v.failures, count-drop_old now c.window b.samples);
    caused = v.caused;
  }

  Reach-Counted :
      {clock : ℕ} {b : Breaker} {now : ℕ} {d : Breaker}
      → Reach c clock b now d
      → Counted b
      → Counted d
  Reach-Counted here v = v
  Reach-Counted (then_step t m u d r s) v = Step-Counted s (Reach-Counted r v)

-- With a positive failure ratio, a breaker that has seen no failure allows every prefetch.
pub allow_prefetch_without_failures :
    (c : Config) (clock : ℕ) (b : Breaker) (now : ℕ)
    → 1 ≤ c.failure_ratio
    → 1 ≤ c.min_samples
    → Reach c 0 fresh clock b
    → b.failed_count ≡ 0
    → allow_prefetch c now b ≡ true
unfolding allow_prefetch
allow_prefetch_without_failures c clock b now ratio many r clean =
    let v = Reach-Counted c ratio many r (record { failures = omega arith; caused = inl refl }) in
    let closed : b.open_until ≡ 0 = shut v.caused in
    let past : leb b.open_until now ≡ true = ground (arith, closed) in rw past (ground arith)
  where
    shut : (b.open_until ≡ 0) ⊎ (1 ≤ b.failed_count) → b.open_until ≡ 0
    shut (inl e) = e
    shut (inr h) = omega (arith, h, clean)
