-- ===== src/Queue/Steps.antt =====
-- queue.py: the database as any sequence of calls leaves it, each of which ends before the next one
-- begins. A call that raises leaves the database as it was, and is no step. Calls that overlap are not
-- modelled: the connections are deferred ones, so that what a method selects before its first write
-- is read outside the transaction, and another call may write in between.
use ds4_on_spark.Prelude.{
  In, ℕ, ◌≡◌, subst, sym, ◌∙◌, String, Bool, true, Option, List, [], ◌∷◌, inl, inr, ok,
}
use ds4_on_spark.Prelude.Int.{ℤ}
use ds4_on_spark.Json.{Json}
use ds4_on_spark.Queue.Tables.{State, Request, Db, empty, terminal}
use ds4_on_spark.Queue.ResultError.{Env}
use ds4_on_spark.Queue.Rows.{Evolves, Evolves-trans}
use ds4_on_spark.Queue.Valid.{IsValid}
use ds4_on_spark.Queue.Frame.{Keeps, Keeps-refl}
use ds4_on_spark.Queue.Leases.{heartbeat}
use ds4_on_spark.Queue.Leases.Keeps.{heartbeat-Keeps}
use ds4_on_spark.Queue.Prepare.{Preparing, prepare_ready}
use ds4_on_spark.Queue.Prepare.Keeps.{prepare_ready-Keeps}
use ds4_on_spark.Queue.Ready.{Claiming}
use ds4_on_spark.Queue.Claim.{Claim, claim_ready_batch}
use ds4_on_spark.Queue.Claim.Keeps.{claim_ready_batch-Keeps}
use ds4_on_spark.Queue.Submit.{submit_requests}
use ds4_on_spark.Queue.Submit.Rows.{Incoming, Routing}
use ds4_on_spark.Queue.Submit.Cpu.{CpuItem, submit_cpu_requests}
use ds4_on_spark.Queue.Submit.Keeps.{submit_requests-Keeps, submit_cpu_requests-Keeps}
use ds4_on_spark.Queue.Finish.{finish_request, retry_transport_failure}
use ds4_on_spark.Queue.Finish.Keeps.{finish_request-Keeps, retry_transport_failure-Keeps}
use ds4_on_spark.Queue.Cancel.{Cancelled, cancel}
use ds4_on_spark.Queue.Cancel.Keeps.{cancel-Keeps}
use ds4_on_spark.Queue.Expire.{requeue_expired_leases, release_prefilling}
use ds4_on_spark.Queue.Expire.Keeps.{requeue_expired_leases-Keeps}
use ds4_on_spark.Queue.Expire.Release.{release_prefilling-Keeps}

-- One call, with any arguments and at any time.
pub data Step (a : Db) : Db → Type 0 where
  submits :
      (env : Env) (routing : Routing) (bid : String) (reqs : List Incoming) (priority : Option ℤ)
      (now : ℕ) (b : Db)
      → submit_requests env routing bid reqs priority now a ≡ ok b
      → Step a b
  submits_cpu :
      (env : Env) (bid service profile_id : String) (priority : Option ℤ) (immediate : Bool)
      (node_id : Option String) (now : ℕ) (items : List CpuItem) (b : Db)
      → submit_cpu_requests env bid service profile_id priority immediate node_id now items a ≡ ok b
      → Step a b
  prepares : (env : Env) (p : Preparing) (now : ℕ) → Step a (prepare_ready env p now a).1
  claims :
      (env : Env) (c : Claiming) (now : ℕ) (claimed : List Claim) (b : Db)
      → claim_ready_batch env c now a ≡ ok (claimed, b)
      → Step a b
  beats : (lease_ids : List String) (ttl now : ℕ) → Step a (heartbeat lease_ids ttl now a).1
  finishes :
      (request_id lease_id : String) (state : State) (result : Json) (error : Option String)
      (now : ℕ) (done : Bool) (b : Db)
      → finish_request request_id lease_id state result error now a ≡ ok (done, b)
      → Step a b
  retries :
      (env : Env) (request_id lease_id : String) (result : Json) (max_attempts now : ℕ)
      → Step a (retry_transport_failure env request_id lease_id result max_attempts now a).1
  cancels :
      (request_id batch_id job_id : Option String) (reason : String) (force : Bool) (now : ℕ)
      (answer : Cancelled) (b : Db)
      → cancel request_id batch_id job_id reason force now a ≡ ok (answer, b)
      → Step a b
  expires :
      (env : Env) (max_attempts now : ℕ) → Step a (requeue_expired_leases env max_attempts now a)
  releases : (reason : String) (stale now : ℕ) → Step a (release_prefilling reason stale now a).1

Step-Keeps : {a b : Db} → Step a b → IsValid a → Keeps a b
Step-Keeps {a} (submits env routing bid reqs priority now b h) v =
    submit_requests-Keeps env routing bid reqs priority now a b v h
Step-Keeps {a} (submits_cpu env bid service profile_id priority immediate node_id now items b h) v =
    submit_cpu_requests-Keeps env bid service profile_id priority immediate node_id now items a b v
      h
Step-Keeps {a} (prepares env p now) v = prepare_ready-Keeps env p now a v
Step-Keeps {a} (claims env c now claimed b h) v = claim_ready_batch-Keeps env c now a claimed b v h
Step-Keeps {a} (beats ids ttl now) v = heartbeat-Keeps ids ttl now a v
Step-Keeps {a} (finishes rid lid state result error now done b h) v =
    finish_request-Keeps rid lid state result error now a done b v h
Step-Keeps {a} (retries env rid lid result max_attempts now) v =
    retry_transport_failure-Keeps env rid lid result max_attempts now a v
Step-Keeps {a} (cancels rid bid jid reason force now answer b h) v =
    cancel-Keeps rid bid jid reason force now a answer b v h
Step-Keeps {a} (expires env max_attempts now) v =
    requeue_expired_leases-Keeps env max_attempts now a v
Step-Keeps {a} (releases reason stale now) v = release_prefilling-Keeps reason stale now a v

-- Any number of calls, the last one outermost.
pub data Reach (a : Db) : Db → Type 0 where
  here : Reach a a
  then_step : (b c : Db) → Reach a b → Step b c → Reach a c

pub Reach-Keeps : {a b : Db} → Reach a b → IsValid a → Keeps a b
Reach-Keeps {a} here v = Keeps-refl a v
Reach-Keeps {a} (then_step b c r s) v =
    let first = Reach-Keeps r v in
    let last = Step-Keeps s first.valid in
    record {
      valid = last.valid;
      evolves = Evolves-trans a.requests b.requests c.requests first.evolves last.evolves;
    }

-- However calls follow each other from the empty database, the tables stay valid: request ids are
-- unique, each row holds a lease exactly while it runs and a result exactly once it is final, and
-- each batch's counts and state are those of its requests.
pub Reach-IsValid : (db : Db) → Reach empty db → IsValid db
Reach-IsValid db r = (Reach-Keeps r (record { keyed = tt; sound = tt; counted = tt })).valid

Evolves-terminal :
    (rs ss : List Request) (r : Request)
    → Evolves rs ss
    → In r rs
    → terminal r.state ≡ true
    → In r ss
Evolves-terminal [] ss r e i t = absurd i
Evolves-terminal (x ∷ xs) [] r e i t = absurd e
Evolves-terminal (x ∷ xs) (y ∷ ys) r e (inl same) t =
    inl (same ∙ sym (e.0.final (subst (λ (z : Request). terminal z.state ≡ true) same t)))
Evolves-terminal (x ∷ xs) (y ∷ ys) r e (inr later) t = inr (Evolves-terminal xs ys r e.1 later t)

-- From a valid database, however calls follow each other: a row whose state is final is in the table
-- afterwards with every column as it was.
pub Reach-terminal :
    (a b : Db) (r : Request)
    → IsValid a
    → Reach a b
    → In r a.requests
    → terminal r.state ≡ true
    → In r b.requests
Reach-terminal a b r v reach there done =
    Evolves-terminal a.requests b.requests r (Reach-Keeps reach v).evolves there done
