-- ===== src/Governor/Cooldown.antt =====
-- resource_governor.py: what a refusal of a refill means for the calls after it.
use ds4_on_spark.Prelude.{
  ℕ, ◌+◌, ◌-◌, ◌≤◌, ◌<◌, ◌≡◌, refl, true, false, not, ◌&&◌, List, length, ltb, ◌==◌, nat-Eq,
  if-either, arith,
}
use ds4_on_spark.Governor.{
  Config, Governor, Decision, Reason, GpuResourceReading, cooldown_remaining, decide, before_refill,
  sleep_for_status, reasons_from_readings,
}

-- A refusal says how long to sleep: until the end of the cooldown.
record Cools (c : Config) (now : ℕ) (r : Decision × Governor) : Type 0 where
  slept : r.0.allow_refill ≡ false → (0 < r.0.sleep) × (r.1.cooldown_until ≡ now + r.0.sleep)
  bounded : r.1.cooldown_until ≤ now + c.throttle_max

sleep-bound : (c : Config) (reasons : List Reason) → sleep_for_status c reasons ≤ c.throttle_max
unfolding sleep_for_status
sleep-bound c reasons = ground arith

decide-Cools :
    (c : Config) (now : ℕ) (reasons : List Reason) (g : Governor)
    → g.cooldown_until ≤ now + c.throttle_max
    → Cools c now (decide c now reasons g)
unfolding decide
decide-Cools c now reasons g bound = record {
  slept = λ refused. ground (arith, refused);
  bounded = ground (arith, bound, sleep-bound c reasons);
}

before_refill-Cools :
    (c : Config) (now : ℕ) (readings : List GpuResourceReading) (g : Governor)
    → g.cooldown_until ≤ now + c.throttle_max
    → Cools c now (before_refill c now readings g)
unfolding before_refill cooldown_remaining
before_refill-Cools c now readings g bound =
    if-either (Cools c now) (not c.enabled) _ _ (λ _. record { slept = λ e. cc e; bounded = bound })
      λ _.
        if-either (Cools c now) (ltb 0 (cooldown_remaining now g)) _ _
          (λ cooling. record { slept = λ refused. ground (arith, cooling); bounded = bound })
          λ _.
            if-either (Cools c now)
              (length g.throttle_reasons == 0 && ltb (now - g.last_sample_at) c.poll) _ _
              (λ _. record { slept = λ e. cc e; bounded = bound })
              (λ _. decide-Cools c now (reasons_from_readings c readings) g bound)

still_cooling :
    (c : Config) (t : ℕ) (readings : List GpuResourceReading) (g : Governor)
    → c.enabled ≡ true
    → t < g.cooldown_until
    → (before_refill c t readings g).0.allow_refill ≡ false
unfolding before_refill cooldown_remaining
still_cooling c t readings g on early =
    let refuses : Decision × Governor → Type 0 = λ r. r.0.allow_refill ≡ false in
    if-either refuses (not c.enabled) _ _
      (λ off. let bad : 1 ≤ 0 = ground (arith, on, off) in elim bad [ ])
      λ _.
        if-either refuses (ltb 0 (cooldown_remaining t g)) _ _ (λ _. refl)
          (λ done. let bad : 1 ≤ 0 = ground (arith, done, early) in elim bad [ ])

-- Where the cooldown of an enabled governor ends within the longest throttle from now, a refill that it
-- refuses is refused again at every time before the sleep is over, whatever a sample would give then;
-- the sleep is no longer than the longest throttle, and the cooldown still ends within it.
pub before_refill_cools :
    (c : Config) (now t : ℕ) (readings later : List GpuResourceReading) (g : Governor)
    → c.enabled ≡ true
    → g.cooldown_until ≤ now + c.throttle_max
    → (before_refill c now readings g).0.allow_refill ≡ false
    → t < now + (before_refill c now readings g).0.sleep
    → ((before_refill c t later (before_refill c now readings g).1).0.allow_refill ≡ false)
      × ((before_refill c now readings g).0.sleep ≤ c.throttle_max)
      × ((before_refill c now readings g).1.cooldown_until ≤ now + c.throttle_max)
before_refill_cools c now t readings later g on bound refused early =
    let facts = before_refill-Cools c now readings g bound in
    let (some_sleep, until) = facts.slept refused in
    (
      still_cooling c t later (before_refill c now readings g).1 on (omega (arith, until, early)),
      omega (arith, until, facts.bounded),
      facts.bounded,
    )
