-- ===== src/Queue/Claim/Keeps.antt =====
-- `claim_ready_batch` keeps the queue's invariant.
use ds4_on_spark.Prelude.{
  ok, ℕ, ◌+◌, ◌≡◌, refl, ap, subst, String, true, ◌&&◌, Option, none, some, List, [], ◌∷◌, All,
  All-map, count, leb, length, inl, inr, Bool-cases, Option-cases, arith, eq_iff, string-Eq, nat-Eq,
}
use ds4_on_spark.Queue.Tables.{State-Eq, Request, Db, terminal, non_empty}
use ds4_on_spark.Queue.Batches.{listed, refresh_batches}
use ds4_on_spark.Queue.ResultError.{Env}
use ds4_on_spark.Queue.Leases.{
  Acquired, unneeded, denied, held, lease_name, acquire_from, acquire_compute_lease,
  extend_compute_lease,
}
use ds4_on_spark.Queue.Rows.{Evolves-refl, Fixes, Fixes-self}
use ds4_on_spark.Queue.Valid.{IsValid}
use ds4_on_spark.Queue.Frame.{
  SameTables, SameTables-refl, SameTables-event, IsValid-same, Keeps, Keeps-refl,
}
use ds4_on_spark.Queue.Loops.{add_id_self, add_id-keeps}
use ds4_on_spark.Queue.Passes.{
  Live, Live-Fixes, Passing, Passing-start, Passing-same, Passing-step, Passing-none, Keeps-Passing,
  Changes, count-IsKeyed,
}
use ds4_on_spark.Queue.Ready.{Claiming, ready_rows}
use ds4_on_spark.Queue.Ready.Laws.{All-ready_rows, All-if}
use ds4_on_spark.Queue.Tokens.{within_budget, limit_ready_rows_by_token_budget}
use ds4_on_spark.Queue.Claim.{
  compute_lease_for, drop_new_lease, held_id, start_rows, put_off, budgeted, claim_budgeted,
  claim_batch, claim_ready_batch, claim_ready_batch-eq-ok, Claim, started, is_ready, claim_of,
  claim_row, with_claim, claim_rows, claimed_batches,
}

started-Changes :
    (id lease_id leased_by : String) (compute_lease_id : Option String) (ttl now : ℕ)
    → Changes id (is_ready id) (started lease_id leased_by compute_lease_id ttl now)
unfolding started
started-Changes id lease_id leased_by compute_lease_id ttl now = record {
  only = λ r e. ground (arith, e, eq_iff r.request_id id);
  kept = record { keep = λ r. refl; batch = λ r. refl; lives = λ r e. refl };
  moves = λ r e live. record {
    same_id = refl;
    same_batch = refl;
    same_profile = refl;
    same_payload = refl;
    attempts = omega arith;
    final = λ done. cc (live, done);
  };
  sound = λ r e v. ground (arith, e);
}

-- The claims of a batch that is listed.
abbrev pub AllListed : List String → List Claim → Type 0
AllListed bs cs = All (λ c. listed bs c.batch_id ≡ true) cs

claimed_batches-listed : (cs : List Claim) → AllListed (claimed_batches cs) cs
unfolding claimed_batches
claimed_batches-listed [] = tt
claimed_batches-listed (c ∷ cs) = (
  add_id_self c.batch_id (claimed_batches cs),
  All-map (λ x. listed (claimed_batches cs) x.batch_id ≡ true) _ cs
      (λ x h. add_id-keeps c.batch_id x.batch_id (claimed_batches cs) h)
      (claimed_batches-listed cs),
)

abbrev ListedClaim : List String → Option Claim → Type 0
ListedClaim bs none = Unit
ListedClaim bs (some c) = listed bs c.batch_id ≡ true

module _ (env : Env) (leased_by : String) (compute_lease_id : Option String) (ttl now : ℕ)
    (bs : List String) (start : Db) where
  claim_row-Passing :
      (row : Request) (rows : List Request) (db : Db)
      → ListedClaim bs (claim_row env leased_by compute_lease_id ttl now row db).0
      → Passing bs (row ∷ rows) start db
      → Passing bs rows start (claim_row env leased_by compute_lease_id ttl now row db).1
  unfolding claim_row
  claim_row-Passing row rows db fits inv =
      let p = is_ready row.request_id in
      let f =
        started (lease_name leased_by "run" (env.hex db.draws)) leased_by compute_lease_id ttl
          now in
      let c = started-Changes row.request_id _ leased_by compute_lease_id ttl now in
      let n = count p db.requests in
      let drawn = Passing-same (record { requests = refl; batches = refl }) inv in
      elim (Bool-cases (leb n 1 && leb 1 n)) [
        | inl e ↦
            let inside : listed bs row.batch_id ≡ true = unfold claim_of in (rw e at fits) in
            rw e (Passing-same (SameTables-event _ _ _ _ _) (Passing-step p f c inside drawn))
        | inr e ↦
            let most = count-IsKeyed row.request_id p c.only db.requests inv.settled.keyed in
            rw e (Passing-none p f (ground (arith, e, most)) drawn)
      ]

  claim_rows-Passing :
      (rows : List Request) (db : Db)
      → AllListed bs (claim_rows env leased_by compute_lease_id ttl now rows db).0
      → Passing bs rows start db
      → Passing bs [] start (claim_rows env leased_by compute_lease_id ttl now rows db).1
  unfolding claim_rows
  claim_rows-Passing [] db fits inv = inv
  claim_rows-Passing (row ∷ rows) db fits inv =
      go (claim_row env leased_by compute_lease_id ttl now row db) refl fits
        (claim_rows-Passing rows)
    where
      go :
          (one : Option Claim × Db)
          → claim_row env leased_by compute_lease_id ttl now row db ≡ one
          → AllListed bs
              (with_claim one.0 (claim_rows env leased_by compute_lease_id ttl now rows one.1)).0
          → ((db1 : Db)
              → AllListed bs (claim_rows env leased_by compute_lease_id ttl now rows db1).0
              → Passing bs rows start db1
              → Passing bs [] start (claim_rows env leased_by compute_lease_id ttl now rows db1).1)
          → Passing bs [] start
              (with_claim one.0 (claim_rows env leased_by compute_lease_id ttl now rows one.1)).1
      go (none, db1) e h next =
          next db1 h
            (subst (λ x. Passing bs rows start x.1) e (claim_row-Passing row rows db (rw e tt) inv))
      go (some c, db1) e h next =
          next db1 h.1 (
            subst (λ x. Passing bs rows start x.1) e (claim_row-Passing row rows db (rw e h.0) inv))

-- The compute lease's table is another.
SameTables-acquire :
    (env : Env) (first : Request) (n : ℕ) (leased_by : String) (ttl now : ℕ) (db : Db)
    → SameTables (acquire_compute_lease env first n leased_by ttl now db).1 db
unfolding acquire_compute_lease acquire_from
SameTables-acquire env first n leased_by ttl now db = record {
  requests = ground arith;
  batches = ground arith;
}

SameTables-extend :
    (env : Env) (first : Request) (n : ℕ) (id leased_by : String) (ttl now : ℕ) (db : Db)
    → SameTables (extend_compute_lease env first n id leased_by ttl now db).1 db
unfolding extend_compute_lease
SameTables-extend env first n id leased_by ttl now db = record {
  requests = ground arith;
  batches = ground arith;
}

SameTables-compute_lease_for :
    (env : Env) (c : Claiming) (first : Request) (n now : ℕ) (db : Db)
    → SameTables (compute_lease_for env c first n now db).1 db
unfolding compute_lease_for
SameTables-compute_lease_for env c first n now db = elim (Bool-cases c.share_compute_domain) [
  | inl e ↦ rw e (SameTables-refl db)
  | inr e ↦ rw e (elim (Option-cases (non_empty c.compute_lease_id)) [
    | inl e2 ↦ rw e2 (SameTables-acquire env first n c.leased_by c.lease_ttl now db)
    | inr (id, e2) ↦ rw e2 (SameTables-extend env first n id c.leased_by c.lease_ttl now db)
  ])
]

SameTables-drop :
    (c : Claiming) (lease : Acquired) (claims : List Claim) (db : Db)
    → SameTables (drop_new_lease c lease claims db) db
unfolding drop_new_lease
SameTables-drop c lease claims db = record { requests = ground arith; batches = ground arith }

module _ {κ} (P : Request → Type κ) where
  All-within_budget :
      (tokens : Request → ℕ) (limit used : ℕ) (rows : List Request)
      → All P rows
      → All P (within_budget tokens limit used rows)
  unfolding within_budget
  All-within_budget tokens limit used [] h = tt
  All-within_budget tokens limit used (row ∷ rows) h =
      elim (Bool-cases (leb (used + tokens row) limit)) [
        | inl e ↦ rw e (h.0, All-within_budget tokens limit (used + tokens row) rows h.1)
        | inr e ↦ rw e (All-within_budget tokens limit used rows h.1)
      ]

  pub All-budgeted :
      (env : Env) (c : Claiming) (rows : List Request) → All P rows → All P (budgeted env c rows)
  unfolding budgeted limit_ready_rows_by_token_budget
  All-budgeted env c [] h = tt
  All-budgeted env c (row ∷ rows) h =
      All-if P _ (row ∷ rows) (row ∷ _) h (h.0, All-within_budget _ _ _ rows h.1)

claimed-Keeps :
    (env : Env) (c : Claiming) (now : ℕ) (rows : List Request) (start db : Db) (lease : Acquired)
    → SameTables db start
    → IsValid start
    → All (Live start.requests) rows
    → let (claims, db1) = claim_rows env c.leased_by (held_id lease) c.lease_ttl now rows db in
      Keeps start (refresh_batches (claimed_batches claims) (drop_new_lease c lease claims db1))
claimed-Keeps env c now rows start db lease same v live =
    let done = claim_rows env c.leased_by (held_id lease) c.lease_ttl now rows db in
    let bs = claimed_batches done.0 in
    let inv =
      claim_rows-Passing env c.leased_by (held_id lease) c.lease_ttl now bs start rows db
        (claimed_batches-listed done.0) (Passing-same same (Passing-start bs rows start v live)) in
    Keeps-Passing (Passing-same (SameTables-drop c lease done.0 done.1) inv)

start_rows-Keeps :
    (env : Env) (c : Claiming) (now : ℕ) (rows : List Request) (start db : Db) (lease : Acquired)
    → SameTables db start
    → IsValid start
    → All (Live start.requests) rows
    → Keeps start (start_rows env c now rows (lease, db)).1
unfolding start_rows
start_rows-Keeps env c now rows start db denied same v live = record {
  valid = IsValid-same same v;
  evolves = rw same.requests (Evolves-refl start.requests);
}
start_rows-Keeps env c now rows start db unneeded same v live =
    claimed-Keeps env c now rows start db unneeded same v live
start_rows-Keeps env c now rows start db (held id) same v live =
    claimed-Keeps env c now rows start db (held id) same v live

claim_batch-Keeps :
    (env : Env) (c : Claiming) (now : ℕ) (db : Db)
    → IsValid db
    → Keeps db (claim_batch env c now db).1
unfolding claim_batch claim_budgeted
claim_batch-Keeps env c now db v = go (budgeted env c (ready_rows env c now db)) (
    All-budgeted (Live db.requests) env c (ready_rows env c now db) (
      All-ready_rows (Live db.requests) env c now db (
        All-map (Fixes db.requests) _ db.requests
          (λ r fix e. Live-Fixes db.requests r (ap terminal e) fix)
          (Fixes-self db.requests v.keyed))))
  where
    go :
        (rows : List Request)
        → All (Live db.requests) rows
        → Keeps db (claim_budgeted env c now rows db).1
    go [] h = Keeps-refl db v
    go (first ∷ rest) h = elim (Bool-cases (put_off env c first rest now db)) [
      | inl e ↦ rw e (Keeps-refl db v)
      | inr e ↦
          let leased = compute_lease_for env c first (length (first ∷ rest)) now db in
          rw e (
            start_rows-Keeps env c now (first ∷ rest) db leased.1 leased.0
              (SameTables-compute_lease_for env c first (length (first ∷ rest)) now db) v h)
    ]

-- From a valid database, `claim_ready_batch`, whatever it claims, leaves the tables valid; every row
-- keeps its place, id, batch, profile and payload, its attempt count never falls, and a row that is
-- final is left as it is.
pub claim_ready_batch-Keeps :
    (env : Env) (c : Claiming) (now : ℕ) (db : Db) (claims : List Claim) (after : Db)
    → IsValid db
    → claim_ready_batch env c now db ≡ ok (claims, after)
    → Keeps db after
claim_ready_batch-Keeps env c now db claims after v h =
    subst (λ (x : List Claim × Db). Keeps db x.1)
      (claim_ready_batch-eq-ok env c now db (claims, after) h) (claim_batch-Keeps env c now db v)
