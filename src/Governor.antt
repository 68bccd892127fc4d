-- ===== src/Governor.antt =====
-- v2/src/ds4_infer/resource_governor.py: when the GPU resource governor lets a refill through. Times,
-- temperatures, powers and percentages are whole units of a fixed size; a threshold of 0 is none.
pub mod Cooldown
pub mod Tests
use ds4_on_spark.Prelude.{
  ℕ, ◌+◌, ◌-◌, ◌*◌, min, max, String, Bool, true, false, not, ◌&&◌, ◌||◌, Option, none, some, List,
  [], ◌∷◌, ◌++◌, map, any, length, ltb, leb, sum_by, ◌==◌, string-Eq, nat-Eq, if◌then◌else◌,
}
use ds4_on_spark.Sql.{select}

-- The fields of a reading that the decision uses.
pub record GpuResourceReading : Type 0 where
  pub node_id : String
  pub ok : Bool
  pub temperature : Option ℕ
  pub power : Option ℕ
  pub host_memory_used : Option ℕ

pub record Thresholds : Type 0 where
  pub soft : ℕ
  pub hard : ℕ

pub record Config : Type 0 where
  pub enabled : Bool
  pub poll : ℕ
  pub temp : Thresholds
  pub power : Thresholds
  pub total_power : Thresholds
  pub host_memory : Thresholds
  pub throttle_step : ℕ
  pub throttle_max : ℕ

pub data Reason : Type 0 where
  temp_hard : Reason
  temp_soft : Reason
  power_hard : Reason
  power_soft : Reason
  total_power_hard : Reason
  total_power_soft : Reason
  host_memory_hard : Reason
  host_memory_soft : Reason

-- reason.endswith("_hard")
abbrev pub is_hard : Reason → Bool
is_hard temp_hard = true
is_hard power_hard = true
is_hard total_power_hard = true
is_hard host_memory_hard = true
is_hard _ = false

abbrev reaches : ℕ → Option ℕ → Bool
reaches threshold none = false
reaches threshold (some value) = ltb 0 threshold && leb threshold value

-- One `if … elif …` of the chain.
unfoldable pub reasons_for : Thresholds → (hard soft : Reason) → Option ℕ → List Reason
reasons_for t hard soft value =
    if reaches t.hard value then hard ∷ [] else if reaches t.soft value then soft ∷ [] else []

unfoldable pub throttle_reasons :
    Config → (max_temp max_power total_power max_host_memory : Option ℕ) → List Reason
unfolding reasons_for
throttle_reasons c max_temp max_power total_power max_host_memory =
    reasons_for c.temp temp_hard temp_soft max_temp
    ++ (reasons_for c.power power_hard power_soft max_power
        ++ (reasons_for c.total_power total_power_hard total_power_soft total_power
            ++ reasons_for c.host_memory host_memory_hard host_memory_soft max_host_memory))

abbrev present : List (Option ℕ) → List ℕ
present [] = []
present (none ∷ rest) = present rest
present (some n ∷ rest) = n ∷ present rest

-- max(values, default=None)
abbrev largest : List ℕ → Option ℕ
largest [] = none
largest (n ∷ rest) = elim (largest rest) [ none ↦ some n | some m ↦ some (max n m) ]

abbrev total : List ℕ → Option ℕ
total [] = none
total (n ∷ rest) = some (sum_by (λ m. m) (n ∷ rest))

-- The reasons that `_status_from_readings` puts in the status.
unfoldable pub reasons_from_readings : Config → List GpuResourceReading → List Reason
unfolding throttle_reasons
reasons_from_readings c readings =
    let good = select (λ (r : GpuResourceReading). r.ok) readings in
    let powers = present (map (λ (r : GpuResourceReading). r.power) good) in
    throttle_reasons c (largest (present (map (λ (r : GpuResourceReading). r.temperature) good)))
      (largest powers) (total powers)
      (largest (present (map (λ (r : GpuResourceReading). r.host_memory_used) good)))

unfoldable pub sleep_for_status : Config → List Reason → ℕ
sleep_for_status c reasons =
    if length reasons == 0
    then 0
    else min c.throttle_max (if any is_hard reasons then c.throttle_step * 2 else c.throttle_step)

pub record Governor : Type 0 where
  pub last_sample_at : ℕ
  pub cooldown_until : ℕ
  pub cooldown_count : ℕ
  pub throttle_reasons : List Reason

abbrev pub initial : Governor
initial = record {
  last_sample_at = 0;
  cooldown_until = 0;
  cooldown_count = 0;
  throttle_reasons = [];
}

unfoldable pub cooldown_remaining : (now : ℕ) → Governor → ℕ
cooldown_remaining now g = g.cooldown_until - now

unfoldable pub force_resample_after_remediation : Governor → Governor
force_resample_after_remediation g = record g { cooldown_until = 0; last_sample_at = 0 }

pub record Decision : Type 0 where
  pub allow_refill : Bool
  pub sleep : ℕ

-- What follows a sample.
unfoldable pub decide : Config → (now : ℕ) → List Reason → Governor → Decision × Governor
unfolding sleep_for_status
decide c now reasons g =
    let sleep = sleep_for_status c reasons in
    (
      record { allow_refill = leb sleep 0; sleep = sleep },
      record {
        last_sample_at = now;
        cooldown_until = if ltb 0 sleep then now + sleep else g.cooldown_until;
        cooldown_count = if ltb 0 sleep then g.cooldown_count + 1 else g.cooldown_count;
        throttle_reasons = reasons;
      },
    )

-- `readings` is what a sample would give now.
unfoldable pub before_refill :
    Config → (now : ℕ) → List GpuResourceReading → Governor → Decision × Governor
unfolding cooldown_remaining decide reasons_from_readings
before_refill c now readings g =
    let remaining = cooldown_remaining now g in
    let cold = length g.throttle_reasons == 0 in
    if not c.enabled
    then (record { allow_refill = true; sleep = 0 }, g)
    else if ltb 0 remaining
    then (record { allow_refill = false; sleep = remaining }, g)
    else if cold && ltb (now - g.last_sample_at) c.poll
    then (record { allow_refill = true; sleep = 0 }, g)
    else decide c now (reasons_from_readings c readings) g

-- A status that is asked to refresh samples anew where the last sample is a poll old.
unfoldable pub refresh_status_sample_if_stale :
    Config → (now : ℕ) → List GpuResourceReading → Governor → Governor
unfolding reasons_from_readings
refresh_status_sample_if_stale c now readings g =
    if not c.enabled || (g.last_sample_at == 0 || ltb (now - g.last_sample_at) c.poll)
    then g
    else record g { last_sample_at = now; throttle_reasons = reasons_from_readings c readings }
