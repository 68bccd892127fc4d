-- ===== src/Governor/Tests.antt =====
-- resource_governor.py at concrete inputs: a hot node.
use ds4_on_spark.Prelude.{◌+◌, ◌≤◌, ◌<◌, true, false, none, some, List, [], ◌∷◌, ◌≡◌, refl, arith}
use ds4_on_spark.Governor.{
  Config, Thresholds, GpuResourceReading, initial, before_refill, decide, cooldown_remaining,
  reasons_from_readings, throttle_reasons, reasons_for, sleep_for_status,
}
use ds4_on_spark.Governor.Cooldown.{before_refill_cools}

abbrev off : Thresholds
off = record { soft = 0; hard = 0 }

abbrev config : Config
config = record {
  enabled = true;
  poll = 20;
  temp = record { soft = 86; hard = 88 };
  power = off;
  total_power = off;
  host_memory = off;
  throttle_step = 5;
  throttle_max = 40;
}

abbrev hot : List GpuResourceReading
hot =
    record {
      node_id = "a";
      ok = true;
      temperature = some 90;
      power = none;
      host_memory_used = none;
    }
    ∷ []

refuses : (before_refill config 100 hot initial).0 ≡ record { allow_refill = false; sleep = 10 }
unfolding before_refill decide cooldown_remaining reasons_from_readings throttle_reasons reasons_for
    sleep_for_status
refuses = refl

refused : (before_refill config 100 hot initial).0.allow_refill ≡ false
refused = rw refuses refl

early : 105 < 100 + (before_refill config 100 hot initial).0.sleep
early = rw refuses (omega arith)

before_refill_cools_example :
    ((before_refill config 105 [] (before_refill config 100 hot initial).1).0.allow_refill ≡ false)
    × ((before_refill config 100 hot initial).0.sleep ≤ 40)
    × ((before_refill config 100 hot initial).1.cooldown_until ≤ 100 + 40)
before_refill_cools_example =
    before_refill_cools config 100 105 hot [] initial refl (omega arith) refused early
