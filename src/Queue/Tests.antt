-- ===== src/Queue/Tests.antt =====
-- queue.py at concrete inputs: each theorem at work on a small queue.
use ds4_on_spark.Prelude.{
  List, ◌⊎◌, ◌++◌, map, Option, String, In, ◌+◌, ◌≤◌, ◌<◌, ◌≡◌, ◌↔◌, refl, true, false, none, some,
  [], ◌∷◌, All, string-Eq, sum_by, if◌then◌else◌, max, arith, ok,
}
use ds4_on_spark.Json.{Json}
use ds4_on_spark.Queue.Tables.{State, Request, empty}
use ds4_on_spark.Queue.Batches.{counts, total_of, batch_state}
use ds4_on_spark.Queue.Valid.{IsValid}
use ds4_on_spark.Queue.Rows.{Fixes}
use ds4_on_spark.Queue.Kv.{ceil_div, new_entry, node_bytes}
use ds4_on_spark.Queue.Kv.Capacity.{reserve_on_node-capacity}
use ds4_on_spark.Queue.Leases.{heartbeat, acquire_compute_lease}
use ds4_on_spark.Queue.Leases.Domains.{OnePerDomain, acquire_compute_lease-OnePerDomain}
use ds4_on_spark.Queue.Batches.Final.{is_final, batch_state-final}
use ds4_on_spark.Queue.Tokens.{row_reserved_tokens, limit_ready_rows_by_token_budget}
use ds4_on_spark.Queue.Tokens.Budget.{limit_ready_rows_by_token_budget-bound}
use ds4_on_spark.Queue.Expire.{expired, requeue_expired_leases}
use ds4_on_spark.Queue.Expire.Complete.{requeue_expired_leases-none}
use ds4_on_spark.Queue.Claim.Scope.{claim_ready_batch-scope}
use ds4_on_spark.Queue.Cancel.{Target, cancel_rows}
use ds4_on_spark.Queue.Cancel.Stops.{Stopped, Named, cancel-Stopped}
use ds4_on_spark.Queue.Submit.Existing.{existing_submission}
use ds4_on_spark.Queue.Submit.Appends.{WaitsAll, submit_requests-Waits}
use ds4_on_spark.Queue.Steps.{
  submits_cpu, claims, beats, here, then_step, Reach-IsValid, Reach-terminal,
}
use ds4_on_spark.Queue.Finish.{finished, holds_lease, finish_request}
use ds4_on_spark.Queue.Finish.Once.{finish_request-once, finish_request-state}
use ds4_on_spark.Queue.Samples.{
  leased, leased-OnePerDomain, taken, takes_two, claimed_two, claims_two, env, asked, running,
  running-IsValid, after, answers, after-IsValid, done, done-In, items, submitted, submits_two,
  claiming, old_entry, made_room, placed, stopped, stops, incoming, routing, grown, grows,
}

finish_request-once_example :
    finish_request "r1" "w:run:a" State.failed Json.null (some "late") 7 (after true)
    ≡ ok (false, after true)
finish_request-once_example =
    finish_request-once "r1" "w:run:a" State.completed State.failed Json.null Json.null none
      (some "late") 5 7 (running true) (after true) (running-IsValid true) refl (answers true)

-- The worker reports success, and the cancellation holds.
finish_request-state_example :
    (row : Request) × (holds_lease "r1" "w:run:a" row ≡ true)
    × Fixes (running true).requests row
    × All
        (λ r.
          r.request_id ≡ "r1"
          → (r.state ≡ (if row.cancel_requested then State.cancelled else State.completed))
            × (r.lease_id ≡ none))
        (after true).requests
finish_request-state_example =
    finish_request-state "r1" "w:run:a" State.completed Json.null none 5 (running true) (after true)
      (running-IsValid true) (answers true)

-- Two CPU requests come in, and a worker takes them.
Reach-IsValid_example : IsValid claimed_two.1
Reach-IsValid_example = Reach-IsValid claimed_two.1 (
    then_step submitted claimed_two.1
      (then_step empty submitted here
        (submits_cpu env "b2" "parse" "cpu:parse" none false none 1 items submitted submits_two))
      (claims env claiming 4 claimed_two.0 claimed_two.1 claims_two))

-- A request that is done stays as it is when its batch is cancelled and its worker beats.
Reach-terminal_example : In done (heartbeat ("w:run:a" ∷ []) 10 7 (after true)).1.requests
unfolding finished
Reach-terminal_example =
    Reach-terminal (after true) (heartbeat ("w:run:a" ∷ []) 10 7 (after true)).1 done after-IsValid
      (then_step (after true) (heartbeat ("w:run:a" ∷ []) 10 7 (after true)).1 here
        (beats ("w:run:a" ∷ []) 10 7))
      done-In refl

batch_state-final_example : (is_final (batch_state (counts (after true).requests "b1")) ≡ true) ↔ (
    (0 < total_of (counts (after true).requests "b1"))
    × (counts (after true).requests "b1" State.queued
          + counts (after true).requests "b1" State.prefilling
          + counts (after true).requests "b1" State.ready
          + counts (after true).requests "b1" State.running
        ≡ 0))
batch_state-final_example = batch_state-final (counts (after true).requests "b1")

limit_ready_rows_by_token_budget-bound_example :
    sum_by
      (row_reserved_tokens env 0)
      (limit_ready_rows_by_token_budget env (asked true ∷ asked false ∷ asked true ∷ []) 2 0)
    ≤ max 2 (row_reserved_tokens env 0 (asked true))
limit_ready_rows_by_token_budget-bound_example =
    limit_ready_rows_by_token_budget-bound env 2 0 (asked true) (asked false ∷ asked true ∷ [])
      (omega arith)

reserve_on_node-capacity_example : node_bytes "n" (new_entry "n" "new" "r1" 50 3 ∷ []) ≤ 100
reserve_on_node-capacity_example =
    reserve_on_node-capacity "n" "new" "r1" 50 100 3 (old_entry ∷ [])
      (new_entry "n" "new" "r1" 50 3 ∷ []) (omega arith) made_room

acquire_compute_lease-OnePerDomain_example :
    OnePerDomain (acquire_compute_lease env placed 1 "w" 10 3 leased).1.compute_leases
acquire_compute_lease-OnePerDomain_example =
    acquire_compute_lease-OnePerDomain env placed 1 "w" 10 3 leased leased-OnePerDomain

claim_ready_batch-scope_example :
    All
      (λ x.
        (x.selected_profile_id ≡ taken.0.selected_profile_id)
        × (x.selected_service_id ≡ taken.0.selected_service_id)
        × (x.selected_compute_domain ≡ taken.0.selected_compute_domain)
        × (x.compute_lease_id ≡ taken.0.compute_lease_id))
      taken.1
claim_ready_batch-scope_example =
    claim_ready_batch-scope env claiming 4 submitted taken.0 taken.1 claimed_two.1 takes_two

requeue_expired_leases-none_example :
    All (λ r. expired 20 r ≡ false) (requeue_expired_leases env 3 20 (running false)).requests
requeue_expired_leases-none_example = requeue_expired_leases-none env 3 20 (running false)

-- The running request is cancelled by force.
cancel-Stopped_example :
    (target : Target) × Named (some "r1") none none target
    × (f : Request → Request) × (stopped.1.requests ≡ map f (running false).requests)
    × All (λ r. Stopped target "stop" true 6 r (f r)) (running false).requests
cancel-Stopped_example =
    cancel-Stopped (some "r1") none none "stop" true 6 (running false) stopped.0 stopped.1
      (running-IsValid false) stops

-- A request comes in beside the one that runs.
submit_requests-Waits_example :
    ((existing_submission env "b4" incoming none (running false) ≡ ok true)
      × (grown ≡ running false))
    ⊎ ((rows : List Request) × (grown.requests ≡ (running false).requests ++ rows)
        × WaitsAll routing "b4" none 30 incoming rows)
submit_requests-Waits_example =
    submit_requests-Waits env routing "b4" none 30 incoming (running false) grown grows

-- Calls that overlap. A cancellation that selected the request while it was ready, and that writes when
-- a worker has claimed it, leaves it cancelled and under its lease.
cancels_claimed :
    map {B = State × Option String}
      (λ (r : Request). (r.state, r.lease_id))
      (cancel_rows "stop" false 6
        (record (asked false) { state = State.ready } ∷ [])
        (running false)).requests
    ≡ (State.cancelled, some "w:run:a") ∷ []
unfolding cancel_rows
cancels_claimed = refl

-- One that selected the request while it ran, and that writes by force when it is completed, makes
-- another final state of it.
cancels_completed :
    (map (λ (r : Request). r.state) (after false).requests ≡ State.completed ∷ [])
    × (map
          (λ (r : Request). r.state)
          (cancel_rows "stop" true 6 (asked false ∷ []) (after false)).requests
        ≡ State.cancelled ∷ [])
unfolding cancel_rows finish_request
cancels_completed = (refl, refl)

-- From 2 ^ 53 on, the quotient of two numbers of bytes is rounded before its ceiling is taken.
rounds_quotients :
    (ceil_div 9007199254740993 1 ≡ 9007199254740992)
    × (ceil_div 9007199254740993 2 ≡ 4503599627370496)
    × (ceil_div 9007199254740999 7 ≡ 1286742750677286)
    × (ceil_div 4611686018427400249 7 ≡ 658812288346771456)
unfolding ceil_div
rounds_quotients = (refl, refl, refl, refl)
