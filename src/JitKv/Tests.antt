-- ===== src/JitKv/Tests.antt =====
-- jit_kv.py at concrete inputs: a breaker that opens on its second failure.
use ds4_on_spark.Prelude.{true, false, none, some, [], ◌∷◌, ◌≡◌, refl, arith}
use ds4_on_spark.Json.{Json, Fields}
use ds4_on_spark.JitKv.{
  Config, Breaker, fresh, configured, allow_prefetch, record_sample, record_success, record_failure,
  drop_old, prune, judge,
}
use ds4_on_spark.Prelude.Int.{pos}
use ds4_on_spark.JitKv.Steps.{Reach, here, then_step, succeeds, fails, allow_prefetch-again}
use ds4_on_spark.JitKv.Opens.{Judged, record_sample-window, allow_prefetch_stays}
use ds4_on_spark.JitKv.Failures.{allow_prefetch_without_failures}
use ds4_on_spark.JitKv.Prefetch.{Setting}

abbrev config : Config
config = record {
  enabled = true;
  window = 60000;
  min_samples = 2;
  failure_ratio = 500;
  cooldown = 120000;
}

keeps_defaults : configured true 60000 (pos 2) (pos 500) 120000 ≡ config
unfolding configured
keeps_defaults = refl

abbrev once : Breaker
once = record_failure config 10 (some "timeout") fresh

abbrev twice : Breaker
twice = record_failure config 20 (some "timeout") once

abbrev reached : Reach config 0 fresh 20 twice
reached =
    then_step 10 once 20 twice
      (then_step 0 fresh 10 once here (fails 10 (some "timeout") (omega arith)))
      (fails 20 (some "timeout") (omega arith))

opens : allow_prefetch config 120019 twice ≡ false
unfolding allow_prefetch record_failure record_sample prune drop_old judge
opens = refl

allow_prefetch-again_example : allow_prefetch config 120020 twice ≡ true
allow_prefetch-again_example = allow_prefetch-again config 20 twice 120020 reached (omega arith)

allow_prefetch_stays_example : allow_prefetch config 120019 (record_success config 30 twice) ≡ false
allow_prefetch_stays_example =
    allow_prefetch_stays config 20 twice 30 (record_success config 30 twice) 120019
      (then_step 20 twice 30 (record_success config 30 twice) here (succeeds 30 (omega arith)))
      opens

record_sample-window_example :
    Judged config 90000 ((90000, true) ∷ []) twice (record_sample config 90000 true none twice)
unfolding record_failure
record_sample-window_example =
    record_sample-window config 20 90000 true none twice refl reached (omega arith)

abbrev calm : Breaker
calm = record_success config 10 fresh

counts_no_failure : calm.failed_count ≡ 0
unfolding record_success record_sample prune drop_old judge
counts_no_failure = refl

allow_prefetch_without_failures_example : allow_prefetch config 11 calm ≡ true
allow_prefetch_without_failures_example =
    allow_prefetch_without_failures config 10 calm 11 (omega arith) (omega arith)
      (then_step 0 fresh 10 calm here (succeeds 10 (omega arith))) counts_no_failure

abbrev setting : Setting
setting = record {
  config = config;
  recorded = 10;
  asked = 11;
  fail_open = true;
  disable_kv_on_cold = true;
}

abbrev payload : Fields
payload = Fields.field "kv_transfer_params" Json.null Fields.end
