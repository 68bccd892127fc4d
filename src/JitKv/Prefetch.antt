-- ===== src/JitKv/Prefetch.antt =====
-- jit_kv.py: `run_prefetch`, over the call of the runner, and `disable_strict_kv`.
pub mod Clean
pub mod Outcome
use ds4_on_spark.Prelude.{
  ℕ, ◌+◌, ◌≤◌, ◌≡◌, ◌≢◌, refl, sym, subst, ap, String, Bool, true, false, not, ◌&&◌, ◌||◌, Option,
  none, some, List, [], ◌∷◌, if◌then◌else◌, if-either, inl, inr, Bool-cases, Option-cases, arith,
  ◌∙◌,
}
use ds4_on_spark.Json.{Json, Fields, get, set, pop, get-pop, get-pop_other, get-set, get-set_other}
use ds4_on_spark.JitKv.{
  Config, Breaker, allow_prefetch, record_submission, record_success, record_failure,
}

-- The extra body is put back, or taken out where nothing is left of it.
unfoldable pub put_extra : Json → (extra : Json) → Json
put_extra payload (Json.obj Fields.end) = pop payload "extra_body"
put_extra payload extra = set payload "extra_body" extra

-- The part of `disable_strict_kv` on the extra body, where it is a dict.
unfoldable pub without_kv_cache : Json → Fields → Json
unfolding put_extra
without_kv_cache payload fs = put_extra payload (pop (Json.obj fs) "ds4_kv_cache")

-- The payload is changed in place, and so is the extra body in it.
unfoldable pub disable_strict_kv : Json → Json
unfolding without_kv_cache
disable_strict_kv payload =
    let rest = pop payload "kv_transfer_params" in
    elim (get rest "extra_body") [ some (Json.obj fs) ↦ without_kv_cache rest fs | _ ↦ rest ]

-- How `_post_prefetch` ends: a response, or what it raises: PrefetchEndpointDisabled,
-- PrefetchEndpointUnavailable, or another exception.
pub data Posted : Type 0 where
  answered : Option Json → Posted
  disabled : String → Posted
  unavailable : String → Posted
  failed : String → Posted

pub data Strategy : Type 0 where
  unavailable_auto_cold_dispatch : Strategy
  disabled_auto_cold_dispatch : Strategy
  failed_auto_cold_dispatch : Strategy
  failed_cold_dispatch : Strategy

-- The result, or the exception.
pub data Ran : Type 0 where
  served : Option Json → Ran
  cold : Strategy → String → Ran
  raised : String → Ran

pub record Prefetched : Type 0 where
  pub ran : Ran
  pub payload : Json
  pub circuit : Option Breaker

-- The flags, the circuit's configuration, and the times at which the outcome is recorded and the
-- circuit is asked.
pub record Setting : Type 0 where
  pub config : Config
  pub recorded : ℕ
  pub asked : ℕ
  pub fail_open : Bool
  pub disable_kv_on_cold : Bool

abbrev pub on_circuit : (Breaker → Breaker) → Option Breaker → Option Breaker
on_circuit f none = none
on_circuit f (some b) = some (f b)

abbrev pub cooled : Setting → Json → Json
cooled s payload = if s.disable_kv_on_cold then disable_strict_kv payload else payload

-- except PrefetchEndpointDisabled
unfoldable pub closed_off : Setting → Strategy → String → Json → Option Breaker → Prefetched
closed_off s strategy error payload circuit =
    if s.fail_open
    then record { ran = cold strategy error; payload = cooled s payload; circuit = circuit }
    else record { ran = raised error; payload = payload; circuit = circuit }

abbrev pub refuses : Setting → Option Breaker → Bool
refuses s none = false
refuses s (some b) = not (allow_prefetch s.config s.asked b)

-- except Exception
unfoldable pub broken_off : Setting → String → Json → Option Breaker → Prefetched
broken_off s error payload before =
    let circuit = on_circuit (record_failure s.config s.recorded (some error)) before in
    let strategy =
      if s.fail_open then Strategy.failed_auto_cold_dispatch else Strategy.failed_cold_dispatch in
    if s.fail_open || refuses s circuit
    then record { ran = cold strategy error; payload = cooled s payload; circuit = circuit }
    else record { ran = raised error; payload = payload; circuit = circuit }

-- `gate` is the message where the endpoint is known to be disabled.
unfoldable pub run_prefetch :
    Setting → (gate : Option String) → Posted → (payload : Json) → Option Breaker → Prefetched
unfolding closed_off broken_off
run_prefetch s (some message) posted payload circuit =
    closed_off s Strategy.disabled_auto_cold_dispatch message payload circuit
run_prefetch s none posted payload circuit =
    let submitted = on_circuit record_submission circuit in
    elim posted [
      | answered response ↦ record {
        ran = served response;
        payload = payload;
        circuit = on_circuit (record_success s.config s.recorded) submitted;
      }
      | disabled e ↦ closed_off s Strategy.disabled_auto_cold_dispatch e payload submitted
      | unavailable e ↦ closed_off s Strategy.unavailable_auto_cold_dispatch e payload submitted
      | failed e ↦ broken_off s e payload submitted
    ]

-- The extra body, null where there is none.
abbrev pub extra_of : Json → Json
extra_of payload = elim (get payload "extra_body") [ some j ↦ j | none ↦ Json.null ]
