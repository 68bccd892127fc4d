-- ===== src/Queue/Claim/Scope.antt =====
-- `claim_ready_batch`: what the requests that one call claims have in common.
use ds4_on_spark.Prelude.{
  ok, ◌*◌, max, ℕ, ◌≡◌, refl, sym, ◌∙◌, ap, subst, String, Bool, true, ◌&&◌, Option, none, some,
  count, leb, nat-Eq, length, List, [], ◌∷◌, All, All-map, take, head?, inl, inr, ◌⊎◌, Bool-cases,
  arith, eq_iff, same, string-Eq,
}
use ds4_on_spark.Sql.{select, order_by}
use ds4_on_spark.Sql.Laws.{All-select_self, All-order_by, All-take}
use ds4_on_spark.Queue.Tables.{Request, Db, non_empty}
use ds4_on_spark.Queue.ResultError.{Env}
use ds4_on_spark.Queue.Leases.{Acquired, unneeded, denied, held, lease_name}
use ds4_on_spark.Queue.Ready.{
  Claiming, ready_rows, scoped_rows, in_scope, is_ready_for, by_readiness, service_batch_limit,
}
use ds4_on_spark.Queue.Shape.{ready_shape_bucket}
use ds4_on_spark.Queue.Ready.Laws.{All-ready_shape_bucket, All-if}
use ds4_on_spark.Queue.Claim.{
  is_ready, Claim, claim_of, claim_row, claim_rows, with_claim, start_rows, budgeted, put_off,
  compute_lease_for, claim_budgeted, claim_batch, claim_ready_batch, claim_ready_batch-eq-ok,
}
use ds4_on_spark.Queue.Claim.Keeps.{All-budgeted}

-- The row may share a batch with the first.
pub record Fits (first r : Request) : Type 0 where
  pub profile : r.selected_profile_id ≡ first.selected_profile_id
  pub service : r.selected_service_id ≡ first.selected_service_id
  pub domain : r.selected_compute_domain ≡ first.selected_compute_domain

same-eq : (a b : Option String) → same a b ≡ true → a ≡ b
same-eq none none h = refl
same-eq none (some b) h = cc h
same-eq (some a) none h = cc h
same-eq (some a) (some b) h = ap some ((eq_iff a b).0 h)

Fits-in_scope : (bucket : Bool) (first r : Request) → in_scope bucket first r ≡ true → Fits first r
unfolding in_scope
Fits-in_scope bucket first r h = record {
  profile = (eq_iff r.selected_profile_id first.selected_profile_id).0 (ground (arith, h));
  service = same-eq r.selected_service_id first.selected_service_id (ground (arith, h));
  domain = same-eq r.selected_compute_domain first.selected_compute_domain (ground (arith, h));
}

scoped_rows-Fits :
    (env : Env) (c : Claiming) (rows : List Request) (first : Request)
    → All (Fits first) (scoped_rows env c rows first)
unfolding scoped_rows
scoped_rows-Fits env c rows first =
    let limit = service_batch_limit first.selected_service_id c.batch_limits c.limit in
    let test = in_scope c.ready_shape_bucketing first in
    let sorted = order_by by_readiness (select test rows) in
    let kept : All (Fits first) sorted = All-order_by (Fits first) by_readiness (select test rows) (
      All-map (λ r. test r ≡ true) _ (select test rows)
        (λ r h. Fits-in_scope c.ready_shape_bucketing first r h) (All-select_self test rows)) in
    let more = max limit (limit * max 1 c.ready_shape_lookahead) in
    All-if (Fits first) c.ready_shape_bucketing (ready_shape_bucket env (take more sorted) limit)
      (take limit sorted)
      (All-ready_shape_bucket (Fits first) env (take more sorted) limit
        (All-take (Fits first) more sorted kept))
      (All-take (Fits first) limit sorted kept)

-- There are no rows, or all fit one.
abbrev pub AllFit : List Request → Type 0
AllFit rows = (rows ≡ []) ⊎ ((first : Request) × All (Fits first) rows)

ready_rows-AllFit :
    (env : Env) (c : Claiming) (now : ℕ) (db : Db) → AllFit (ready_rows env c now db)
unfolding ready_rows
ready_rows-AllFit env c now db =
    let rows =
      select
        (is_ready_for env c.node_id c.batch_id c.selected_service_id c.share_compute_domain now db)
        db.requests in
    go rows (head? (order_by by_readiness rows))
  where
    go :
        (rows : List Request) (o : Option Request)
        → AllFit (elim o [ none ↦ [] | some first ↦ scoped_rows env c rows first ])
    go rows none = inl refl
    go rows (some first) = inr (first, scoped_rows-Fits env c rows first)

budgeted-AllFit :
    (env : Env) (c : Claiming) (rows : List Request) → AllFit rows → AllFit (budgeted env c rows)
budgeted-AllFit env c rows (inl none_there) =
    inl (ap (budgeted env c) none_there ∙ (unfold budgeted in refl))
budgeted-AllFit env c rows (inr (first, h)) = inr (first, All-budgeted (Fits first) env c rows h)

-- What a claim tells of the scope of `first`, and of the compute lease.
pub record Tells (first : Request) (lease : Option String) (c : Claim) : Type 0 where
  pub profile : c.selected_profile_id ≡ first.selected_profile_id
  pub service : c.selected_service_id ≡ non_empty first.selected_service_id
  pub domain : c.selected_compute_domain ≡ non_empty first.selected_compute_domain
  pub under : c.compute_lease_id ≡ lease

claim_of-Tells :
    (first row : Request) (lease_id : String) (lease : Option String)
    → Fits first row
    → Tells first lease (claim_of row lease_id lease)
unfolding claim_of
claim_of-Tells first row lease_id lease h = record {
  profile = h.profile;
  service = ap non_empty h.service;
  domain = ap non_empty h.domain;
  under = refl;
}

with_claim-All :
    (P : Claim → Type 0) (o : Option Claim) (rest : List Claim × Db)
    → ((c : Claim) → o ≡ some c → P c)
    → All P rest.0
    → All P (with_claim o rest).0
with_claim-All P none rest h k = k
with_claim-All P (some c) rest h k = (h c refl, k)

module _ (env : Env) (leased_by : String) (lease : Option String) (ttl now : ℕ)
    (first : Request) where
  claim_row-Tells :
      (row : Request) (db : Db) (c : Claim)
      → Fits first row
      → (claim_row env leased_by lease ttl now row db).0 ≡ some c
      → Tells first lease c
  unfolding claim_row
  claim_row-Tells row db c h e =
      let n = count (is_ready row.request_id) db.requests in
      elim (Bool-cases (leb n 1 && leb 1 n)) [
        | inl t ↦
            let lease_id = lease_name leased_by "run" (env.hex db.draws) in
            let made : some (claim_of row lease_id lease) ≡ some c = rw t at e in
            let one : claim_of row lease_id lease ≡ c = cc made in
            subst (Tells first lease) one (claim_of-Tells first row lease_id lease h)
        | inr f ↦ cc (rw f at e)
      ]

  claim_rows-Tells :
      (rows : List Request) (db : Db)
      → All (Fits first) rows
      → All (Tells first lease) (claim_rows env leased_by lease ttl now rows db).0
  unfolding claim_rows
  claim_rows-Tells [] db h = tt
  claim_rows-Tells (row ∷ rows) db h =
      with_claim-All (Tells first lease) (claim_row env leased_by lease ttl now row db).0
        (claim_rows env leased_by lease ttl now rows
          (claim_row env leased_by lease ttl now row db).1)
        (λ c e. claim_row-Tells row db c h.0 e)
        (claim_rows-Tells rows (claim_row env leased_by lease ttl now row db).1 h.1)

-- There are no claims, or all are in one scope and under one compute lease.
abbrev pub AllTell : List Claim → Type 0
AllTell claims =
    (claims ≡ []) ⊎ ((first : Request) × (lease : Option String) × All (Tells first lease) claims)

start_rows-AllTell :
    (env : Env) (c : Claiming) (now : ℕ) (rows : List Request) (first : Request)
    (leased : Acquired × Db)
    → All (Fits first) rows
    → AllTell (start_rows env c now rows leased).0
unfolding start_rows
start_rows-AllTell env c now rows first (denied, db) h = inl refl
start_rows-AllTell env c now rows first (unneeded, db) h =
    inr (first, none, claim_rows-Tells env c.leased_by none c.lease_ttl now first rows db h)
start_rows-AllTell env c now rows first (held id, db) h =
    inr (first, some id, claim_rows-Tells env c.leased_by (some id) c.lease_ttl now first rows db h)

claim_budgeted-AllTell :
    (env : Env) (c : Claiming) (now : ℕ) (rows : List Request) (db : Db)
    → AllFit rows
    → AllTell (claim_budgeted env c now rows db).0
unfolding claim_budgeted
claim_budgeted-AllTell env c now [] db h = inl refl
claim_budgeted-AllTell env c now (r ∷ rs) db (inl e) = cc e
claim_budgeted-AllTell env c now (r ∷ rs) db (inr (first, h)) =
    elim (Bool-cases (put_off env c r rs now db)) [
      | inl e ↦ rw e (inl refl)
      | inr e ↦ rw e (
          start_rows-AllTell env c now (r ∷ rs) first
            (compute_lease_for env c r (length (r ∷ rs)) now db) h)
    ]

-- The requests that one call of `claim_ready_batch` claims have one profile, one service, one compute
-- domain and one compute lease: each later claim agrees with the first on the four.
pub claim_ready_batch-scope :
    (env : Env) (c : Claiming) (now : ℕ) (db : Db) (first : Claim) (rest : List Claim) (after : Db)
    → claim_ready_batch env c now db ≡ ok (first ∷ rest, after)
    → All
        (λ x.
          (x.selected_profile_id ≡ first.selected_profile_id)
          × (x.selected_service_id ≡ first.selected_service_id)
          × (x.selected_compute_domain ≡ first.selected_compute_domain)
          × (x.compute_lease_id ≡ first.compute_lease_id))
        rest
unfolding claim_batch
claim_ready_batch-scope env c now db first rest after e = go (
    subst AllTell
      (ap (λ (x : List Claim × Db). x.0)
        (claim_ready_batch-eq-ok env c now db (first ∷ rest, after) e))
      (claim_budgeted-AllTell env c now (budgeted env c (ready_rows env c now db)) db
        (budgeted-AllFit env c (ready_rows env c now db) (ready_rows-AllFit env c now db))))
  where
    go :
        AllTell (first ∷ rest)
        → All
            (λ x.
              (x.selected_profile_id ≡ first.selected_profile_id)
              × (x.selected_service_id ≡ first.selected_service_id)
              × (x.selected_compute_domain ≡ first.selected_compute_domain)
              × (x.compute_lease_id ≡ first.compute_lease_id))
            rest
    go (inl none_there) = cc none_there
    go (inr (r, lease, h)) =
        All-map (Tells r lease) _ rest
          (λ x t. (
            t.profile ∙ sym h.0.profile,
            t.service ∙ sym h.0.service,
            t.domain ∙ sym h.0.domain,
            t.under ∙ sym h.0.under,
          ))
          h.1
