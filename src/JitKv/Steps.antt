-- ===== src/JitKv/Steps.antt =====
-- jit_kv.py: the calls on a breaker, on a clock that does not run back.
use ds4_on_spark.Prelude.{
  ℕ, ◌+◌, ◌≤◌, max, ◌≡◌, String, Bool, true, false, Option, none, List, [], ◌∷◌, ◌++◌, All,
  All-append, length, ltb, leb, inl, inr, Bool-cases, if-either, arith, if◌then◌else◌,
}
use ds4_on_spark.Prelude.Int.{ℤ}
use ds4_on_spark.JitKv.{
  Config, Breaker, fresh, allow_prefetch, record_submission, drop_old, prune, judge, record_sample,
  record_success, record_failure, record_gate_release, status, ratio_reached, noted,
}

pub data Step (c : Config) (clock : ℕ) (b : Breaker) : ℕ → Breaker → Type 0 where
  submits : Step c clock b clock (record_submission b)
  succeeds : (now : ℕ) → clock ≤ now → Step c clock b now (record_success c now b)
  fails :
      (now : ℕ) (error : Option String)
      → clock ≤ now
      → Step c clock b now (record_failure c now error b)
  releases : (n : ℤ) → Step c clock b clock (record_gate_release n b)
  reports : (now : ℕ) → clock ≤ now → Step c clock b now (status c now b).1

-- From a breaker at one time to a breaker at another.
pub data Reach (c : Config) (clock : ℕ) (b : Breaker) : ℕ → Breaker → Type 0 where
  here : Reach c clock b clock b
  then_step :
      (t : ℕ) (m : Breaker) (u : ℕ) (d : Breaker)
      → Reach c clock b t m
      → Step c t m u d
      → Reach c clock b u d

-- The samples are in order of time, up to the clock, and the circuit is open for no longer than a
-- cooldown from it.
unfoldable pub Ordered : (clock : ℕ) → List (ℕ × Bool) → Type 0
Ordered clock [] = Unit {0}
Ordered clock ((t, success) ∷ rest) =
    (t ≤ clock) × All (λ (s : ℕ × Bool). t ≤ s.0) rest × Ordered clock rest

pub record IsBreaker (c : Config) (clock : ℕ) (b : Breaker) : Type 0 where
  pub ordered : Ordered clock b.samples
  pub cooling : b.open_until ≤ clock + c.cooldown

Ordered-later :
    (clock now : ℕ) (samples : List (ℕ × Bool))
    → clock ≤ now
    → Ordered clock samples
    → Ordered now samples
unfolding Ordered
Ordered-later clock now [] le h = tt
Ordered-later clock now ((t, success) ∷ rest) le h =
    (omega (arith, h.0, le), h.1, Ordered-later clock now rest le h.2)

Ordered-drop_old :
    (clock now window : ℕ) (samples : List (ℕ × Bool))
    → Ordered clock samples
    → Ordered clock (drop_old now window samples)
unfolding Ordered drop_old
Ordered-drop_old clock now window [] h = tt
Ordered-drop_old clock now window ((t, success) ∷ rest) h =
    elim (Bool-cases (ltb (t + window) now)) [
      | inl old ↦ rw old (Ordered-drop_old clock now window rest h.2)
      | inr kept ↦ rw kept h
    ]

pub Ordered-snoc :
    (clock now : ℕ) (success : Bool) (samples : List (ℕ × Bool))
    → clock ≤ now
    → Ordered clock samples
    → Ordered now (samples ++ (now, success) ∷ [])
unfolding Ordered
Ordered-snoc clock now success [] le h = (omega arith, tt, tt)
Ordered-snoc clock now success ((t, s) ∷ rest) le h = (
  omega (arith, h.0, le),
  All-append _ rest ((now, success) ∷ []) h.1 (omega (arith, h.0, le), tt),
  Ordered-snoc clock now success rest le h.2,
)

unfoldable pub opened : Config → ℕ → Breaker → Breaker
opened c now b = record b { open_until = max b.open_until (now + c.cooldown) }

judge-IsBreaker :
    (c : Config) (clock now : ℕ) (b : Breaker)
    → clock ≤ now
    → Ordered now b.samples
    → b.open_until ≤ clock + c.cooldown
    → IsBreaker c now (judge c now b)
unfolding judge opened
judge-IsBreaker c clock now b le ordered cooling =
    let unchanged : IsBreaker c now b = record {
      ordered = ordered;
      cooling = omega (arith, cooling, le);
    } in
    if-either (IsBreaker c now) (ltb (length b.samples) c.min_samples) b
      (if ratio_reached c b.samples then opened c now b else b) (λ _. unchanged)
      (λ _.
        if-either (IsBreaker c now) (ratio_reached c b.samples) (opened c now b) b
          (λ _. record { ordered = ordered; cooling = omega (arith, cooling, le) })
          (λ _. unchanged))

-- The breaker that `judge` looks at.
abbrev pub sampled : Config → ℕ → Bool → Option String → Breaker → Breaker
sampled c now success error b =
    prune c now (record b {
      samples = b.samples ++ (now, success) ∷ [];
      last_error = noted error b.last_error;
    })

record_sample-IsBreaker :
    (c : Config) (clock now : ℕ) (success : Bool) (error : Option String) (b : Breaker)
    → clock ≤ now
    → IsBreaker c clock b
    → IsBreaker c now (record_sample c now success error b)
unfolding record_sample prune
record_sample-IsBreaker c clock now success error b le v =
    if-either (IsBreaker c now) c.enabled (judge c now (sampled c now success error b)) b
      (λ _.
        judge-IsBreaker c clock now (sampled c now success error b) le
          (Ordered-drop_old now now c.window (b.samples ++ (now, success) ∷ [])
            (Ordered-snoc clock now success b.samples le v.ordered))
          v.cooling)
      (λ _. record {
        ordered = Ordered-later clock now b.samples le v.ordered;
        cooling = omega (arith, v.cooling, le);
      })

Step-IsBreaker :
    {c : Config} {clock : ℕ} {b : Breaker} {now : ℕ} {d : Breaker}
    → Step c clock b now d
    → IsBreaker c clock b
    → IsBreaker c now d
unfolding record_submission record_success record_failure record_gate_release status prune
Step-IsBreaker submits v = record { ordered = v.ordered; cooling = v.cooling }
Step-IsBreaker {c} {clock} {b} (succeeds now le) v =
    record_sample-IsBreaker c clock now true none
      (record b { completed_count = b.completed_count + 1 }) le
      (record { ordered = v.ordered; cooling = v.cooling })
Step-IsBreaker {c} {clock} {b} (fails now error le) v =
    record_sample-IsBreaker c clock now false error (record b { failed_count = b.failed_count + 1 })
      le (record { ordered = v.ordered; cooling = v.cooling })
Step-IsBreaker (releases n) v = record { ordered = v.ordered; cooling = v.cooling }
Step-IsBreaker {c} {clock} {b} (reports now le) v = record {
  ordered =
      Ordered-drop_old now now c.window b.samples (Ordered-later clock now b.samples le v.ordered);
  cooling = omega (arith, v.cooling, le);
}

pub Reach-IsBreaker :
    (c : Config) (clock : ℕ) (b : Breaker) (now : ℕ) (d : Breaker)
    → Reach c clock b now d
    → IsBreaker c clock b
    → IsBreaker c now d
Reach-IsBreaker c clock b now d here v = v
Reach-IsBreaker c clock b now d (then_step t m u e r s) v =
    Step-IsBreaker s (Reach-IsBreaker c clock b t m r v)

pub fresh-IsBreaker : (c : Config) → IsBreaker c 0 fresh
unfolding Ordered
fresh-IsBreaker c = record { ordered = tt; cooling = omega arith }

-- Whatever calls have been made, the breaker allows prefetches again once a cooldown has passed since
-- the last call with a time of its own.
pub allow_prefetch-again :
    (c : Config) (clock : ℕ) (b : Breaker) (now : ℕ)
    → Reach c 0 fresh clock b
    → clock + c.cooldown ≤ now
    → allow_prefetch c now b ≡ true
unfolding allow_prefetch
allow_prefetch-again c clock b now r later =
    let v = Reach-IsBreaker c 0 fresh clock b r (fresh-IsBreaker c) in
    let past : leb b.open_until now ≡ true = ground (arith, v.cooling, later) in
    rw past (ground arith)
