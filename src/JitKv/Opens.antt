-- ===== src/JitKv/Opens.antt =====
-- jit_kv.py: when the circuit opens, and that it stays open.
use ds4_on_spark.Prelude.{
  ℕ, ◌+◌, ◌*◌, ◌≤◌, ◌<◌, max, count, leb, ap, sym, refl, subst, ◌≡◌, String, Bool, true, false,
  Option, none, List, [], ◌∷◌, ◌++◌, All, length, ltb, inl, inr, Bool-cases, if-either, if_true,
  arith, if◌then◌else◌,
}
use ds4_on_spark.Sql.{select}
use ds4_on_spark.JitKv.{
  Config, Breaker, fresh, allow_prefetch, record_submission, drop_old, prune, judge, record_sample,
  record_success, record_failure, record_gate_release, status, ratio_reached, is_failure,
}
use ds4_on_spark.JitKv.Steps.{
  Step, submits, succeeds, fails, releases, reports, Reach, here, then_step, Ordered,
  Reach-IsBreaker, fresh-IsBreaker, sampled, opened, Ordered-snoc,
}

-- The breaker stays as it is, or opens where there are samples enough and failures enough.
pub judge-either :
    (c : Config) (now : ℕ) (b : Breaker) (P : Breaker → Type 0)
    → P b
    → (ltb (length b.samples) c.min_samples ≡ false
        → ratio_reached c b.samples ≡ true
        → P (opened c now b))
    → P (judge c now b)
unfolding judge opened
judge-either c now b P h o =
    if-either P (ltb (length b.samples) c.min_samples) b
      (if ratio_reached c b.samples then opened c now b else b) (λ _. h)
      (λ sampled_enough.
        if-either P (ratio_reached c b.samples) (opened c now b) b
          (λ reached. o sampled_enough reached) (λ _. h))

-- The samples that are at most a window old.
abbrev pub recent : (now window : ℕ) → List (ℕ × Bool) → List (ℕ × Bool)
recent now window samples = select (λ (s : ℕ × Bool). leb now (s.0 + window)) samples

all_recent :
    (now window t : ℕ) (samples : List (ℕ × Bool))
    → now ≤ t + window
    → All (λ (s : ℕ × Bool). t ≤ s.0) samples
    → recent now window samples ≡ samples
all_recent now window t [] near h = refl
all_recent now window t (s ∷ rest) near h =
    let here : leb now (s.0 + window) ≡ true = ground (arith, near, h.0) in
    rw here (ap (λ l. s ∷ l) (all_recent now window t rest near h.1))

-- What is dropped from the front is all that is old, since the samples are in order of time.
drop_old-recent :
    (now window : ℕ) (samples : List (ℕ × Bool))
    → Ordered now samples
    → drop_old now window samples ≡ recent now window samples
unfolding Ordered drop_old
drop_old-recent now window [] h = refl
drop_old-recent now window ((t, success) ∷ rest) h = elim (Bool-cases (ltb (t + window) now)) [
  | inl old ↦
      let gone : leb now (t + window) ≡ false = ground (arith, old) in
      rw (old, gone) (drop_old-recent now window rest h.2)
  | inr kept ↦
      let near : now ≤ t + window = ground (arith, kept) in
      let here : leb now (t + window) ≡ true = ground (arith, kept) in
      rw (kept, here) (ap (λ l. (t, success) ∷ l) (sym (all_recent now window t rest near h.1)))
]

-- A breaker that has judged by `samples` at a time: it keeps these, and opens for a cooldown where
-- they are enough and the failures among them reach the ratio, and only there.
pub record Judged (c : Config) (now : ℕ) (samples : List (ℕ × Bool)) (b d : Breaker) : Type 0 where
  pub kept : d.samples ≡ samples
  pub opens :
      c.min_samples ≤ length samples
      → c.failure_ratio * length samples ≤ count is_failure samples * 1000
      → d.open_until ≡ max b.open_until (now + c.cooldown)
  pub too_few : length samples < c.min_samples → d.open_until ≡ b.open_until
  pub too_good :
      count is_failure samples * 1000 < c.failure_ratio * length samples
      → d.open_until ≡ b.open_until

judge-Judged : (c : Config) (now : ℕ) (b : Breaker) → Judged c now b.samples b (judge c now b)
unfolding judge
judge-Judged c now b = elim (Bool-cases (ltb (length b.samples) c.min_samples)) [
  | inl few ↦ rw few (record {
    kept = refl;
    opens = λ many _. ground (arith, few, many);
    too_few = λ _. refl;
    too_good = λ _. refl;
  })
  | inr many ↦ elim (Bool-cases (ratio_reached c b.samples)) [
    | inl bad ↦
        rw (many, bad)
          (record {
            kept = refl;
            opens = λ _ _. refl;
            too_few = λ few. ground (arith, few, many);
            too_good = λ good. ground (arith, good, bad);
          })
    | inr good ↦
        rw (many, good)
          (record {
            kept = refl;
            opens = λ _ bad. ground (arith, good, bad);
            too_few = λ _. refl;
            too_good = λ _. refl;
          })
  ]
]

-- A breaker that is enabled judges by its window: after any calls, a further sample leaves just the
-- samples, itself included, that are at most a window old, and opens the circuit for a cooldown where
-- these are enough and the failures among them reach the ratio; otherwise it leaves the time until
-- which the circuit is open alone.
pub record_sample-window :
    (c : Config) (clock now : ℕ) (success : Bool) (error : Option String) (b : Breaker)
    → c.enabled ≡ true
    → Reach c 0 fresh clock b
    → clock ≤ now
    → Judged c now
        (recent now c.window (b.samples ++ (now, success) ∷ []))
        b
        (record_sample c now success error b)
unfolding record_sample prune
record_sample-window c clock now success error b on r le =
    let v = Reach-IsBreaker c 0 fresh clock b r (fresh-IsBreaker c) in
    let seen = b.samples ++ (now, success) ∷ [] in
    let kept : drop_old now c.window seen ≡ recent now c.window seen =
      drop_old-recent now c.window seen (Ordered-snoc clock now success b.samples le v.ordered) in
    let judged = judge-Judged c now (sampled c now success error b) in
    subst (Judged c now (recent now c.window seen) b) (sym (if_true c.enabled _ b on)) (
      subst
        (λ (l : List (ℕ × Bool)). Judged c now l b (judge c now (sampled c now success error b)))
        kept
        (record {
          kept = judged.kept;
          opens = judged.opens;
          too_few = judged.too_few;
          too_good = judged.too_good;
        }))

-- The breaker that a sample leaves, for every property that the judged one and the old one have.
pub record_sample-either :
    (c : Config) (now : ℕ) (success : Bool) (error : Option String) (b : Breaker)
    (P : Breaker → Type 0)
    → P b
    → P (judge c now (sampled c now success error b))
    → P (record_sample c now success error b)
unfolding record_sample
record_sample-either c now success error b P h j =
    if-either P c.enabled (judge c now (sampled c now success error b)) b (λ _. j) (λ _. h)

record_sample-later :
    (c : Config) (now : ℕ) (success : Bool) (error : Option String) (b : Breaker) (t : ℕ)
    → t ≤ b.open_until
    → t ≤ (record_sample c now success error b).open_until
unfolding prune opened
record_sample-later c now success error b t h =
    record_sample-either c now success error b (λ d. t ≤ d.open_until) h
      (judge-either c now (sampled c now success error b) (λ d. t ≤ d.open_until) h
        (λ _ _. omega (arith, h)))

Step-later :
    {c : Config} {clock : ℕ} {b : Breaker} {now : ℕ} {d : Breaker}
    → Step c clock b now d
    → (t : ℕ) → t ≤ b.open_until
    → t ≤ d.open_until
unfolding record_submission record_success record_failure record_gate_release status prune
Step-later submits t h = h
Step-later {c} {b = b} (succeeds now le) t h =
    record_sample-later c now true none (record b { completed_count = b.completed_count + 1 }) t h
Step-later {c} {b = b} (fails now error le) t h =
    record_sample-later c now false error (record b { failed_count = b.failed_count + 1 }) t h
Step-later (releases n) t h = h
Step-later (reports now le) t h = h

Reach-later :
    {c : Config} {clock : ℕ} {b : Breaker} {now : ℕ} {d : Breaker}
    → Reach c clock b now d
    → (t : ℕ) → t ≤ b.open_until
    → t ≤ d.open_until
Reach-later here t h = h
Reach-later (then_step u m now d r s) t h = Step-later s t (Reach-later r t h)

-- A circuit that is closed to prefetches at some time is closed to them at that time whatever calls
-- come in between: no success opens it early.
pub allow_prefetch_stays :
    (c : Config) (clock : ℕ) (b : Breaker) (now : ℕ) (d : Breaker) (t : ℕ)
    → Reach c clock b now d
    → allow_prefetch c t b ≡ false
    → allow_prefetch c t d ≡ false
unfolding allow_prefetch
allow_prefetch_stays c clock b now d t r h =
    let until : t + 1 ≤ b.open_until = ground (arith, h) in
    let later = Reach-later r (t + 1) until in ground (arith, h, later)
