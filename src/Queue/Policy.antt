-- ===== src/Queue/Policy.antt =====
-- queue_policy.py: priorities, and the two names of a batch.
use ds4_on_spark.Prelude.{
  String, Bool, Option, none, some, ◌==◌, string-Eq, if◌then◌else◌, Result, ok, value_error,
}
use ds4_on_spark.Prelude.Int.{ℤ, pos, ltb_ℤ}

abbrev pub default_queue_priority : ℤ
default_queue_priority = pos 10

abbrev pub immediate_queue_priority : ℤ
immediate_queue_priority = pos 0

abbrev pub default_for : Bool → ℤ
default_for immediate = if immediate then immediate_queue_priority else default_queue_priority

unfoldable pub validated_priority : Option ℤ → (immediate : Option Bool) → Result (Option ℤ)
validated_priority none none = ok none
validated_priority none (some immediate) = ok (some (default_for immediate))
validated_priority (some value) _ =
    if ltb_ℤ value (pos 0) then value_error "priority must be non-negative" else ok (some value)

-- The two fields of the request that count, and the override.
unfoldable pub request_priority :
    (priority : Option ℤ) (immediate : Bool) (priority_override : Option ℤ) → Result (Option ℤ)
unfolding validated_priority
request_priority priority immediate (some override) = ok (some override)
request_priority (some priority) immediate none = validated_priority (some priority) none
request_priority none immediate none = ok (some (default_for immediate))

unfoldable pub job_batch_id : (batch_id job_id : Option String) → Result (Option String)
job_batch_id (some b) (some j) =
    if b == j
    then ok (some b)
    else value_error "batch_id and job_id must match when both are provided"
job_batch_id (some b) none = ok (some b)
job_batch_id none j = ok j
