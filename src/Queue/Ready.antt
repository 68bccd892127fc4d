-- ===== src/Queue/Ready.antt =====
-- queue.py: which rows a worker may prepare or claim (`_queued_rows`, `_ready_rows`,
-- `_ready_row_scope`, `_has_recent_queued_peer`, `_should_wait_for_ready_floor`,
-- `_row_batch_request_count`, `_node_depth`, and the limits by service).
pub mod Laws
use ds4_on_spark.Prelude.{
  ℕ, ◌+◌, ◌*◌, min, max, String, Bool, true, false, not, ◌&&◌, ◌||◌, Option, none, some, List, [],
  ◌∷◌, ◌==◌, string-Eq, nat-Eq, leb, ltb, length, take, head?, any, count, same, holds,
  if◌then◌else◌,
}
use ds4_on_spark.Prelude.Int.{ℤ, ltb_ℤ, int-Eq, at_least_zero}
use ds4_on_spark.Sql.{select, order_by}
use ds4_on_spark.Queue.Tables.{State, State-Eq, Kind, Request, ComputeLease, Db, non_empty}
use ds4_on_spark.Queue.ResultError.{Env}
use ds4_on_spark.Queue.Leases.{should_drain}
use ds4_on_spark.Queue.Tokens.{row_reserved_tokens}
use ds4_on_spark.Queue.Shape.{ready_shape_bucket}
use ds4_on_spark.Queue.Text.{before}

-- A mapping from service ids to numbers, by `get`.
abbrev pub ByService : Type 0
ByService = String → Option ℤ

unfoldable pub service_batch_limit : Option String → ByService → (default_limit : ℕ) → ℕ
service_batch_limit none by_service default_limit = max 1 default_limit
service_batch_limit (some service_id) by_service default_limit = elim (by_service service_id) [
  | none ↦ max 1 default_limit
  | some configured ↦ min (max 1 default_limit) (max 1 (at_least_zero configured))
]

abbrev configured : Option String → ByService → Option ℤ
configured none by_service = none
configured (some service_id) by_service = by_service service_id

-- `_service_batch_token_limit` and `_service_batch_decode_token_reserve` are the same function: the
-- service's own value, else that of "*", else 0.
unfoldable pub service_or_default : Option String → ByService → ℕ
service_or_default service_id by_service = elim (configured service_id by_service) [
  | some n ↦ at_least_zero n
  | none ↦ elim (by_service "*") [ none ↦ 0 | some n ↦ at_least_zero n ]
]

abbrev oldest_lease : ℕ → List ComputeLease → Option ComputeLease
oldest_lease now ls =
    head? (
      order_by (λ a b. ltb a.created_at b.created_at) (select (λ l. ltb now l.lease_expires_at) ls))

-- A clause that is there only for a value that counts as true.
abbrev if_given : Option String → (String → Bool) → Bool
if_given o p = elim (non_empty o) [ none ↦ true | some s ↦ p s ]

abbrev in_lease : ComputeLease → Request → Bool
in_lease l r =
    if_given l.service_id (holds r.selected_service_id)
    && if_given (some l.compute_domain) (holds r.selected_compute_domain)

abbrev prefers : Env → Db → ℕ → Option ComputeLease → Request → Bool
prefers env db now none r = true
prefers env db now (some l) r = if should_drain env db l now then true else in_lease l r

-- The clauses that both queries end with: the asked service, or that of the live lease.
unfoldable pub service_clause :
    Env
    → (batch_id selected_service_id : Option String) (ignore_compute_lease : Bool) (now : ℕ) → Db
    → Request
    → Bool
unfolding order_by
service_clause env batch_id (some service_id) ignore now db r =
    holds r.selected_service_id service_id
service_clause env batch_id none ignore now db r = elim (non_empty batch_id) [
  | some _ ↦ true
  | none ↦ if ignore then true else prefers env db now (oldest_lease now db.compute_leases) r
]

-- (selected_node_id is null or selected_node_id=?), for a worker with a node
abbrev free_or_on : Option String → Request → Bool
free_or_on none r = true
free_or_on (some node_id) r = elim r.selected_node_id [ none ↦ true | some n ↦ n == node_id ]

abbrev on_own_node : Option String → Request → Bool
on_own_node none r = true
on_own_node (some node_id) r = holds r.selected_node_id node_id

abbrev in_batch : Option String → Request → Bool
in_batch batch_id r = if_given batch_id (λ b. r.batch_id == b)

abbrev eligible_profile : List String → Request → Bool
eligible_profile eligible r = length eligible == 0 || any (λ p. r.selected_profile_id == p) eligible

-- The `where` of `_queued_rows`.
unfoldable pub is_queued_for :
    Env
    → (node_id : Option String) (eligible : List String)
    → (batch_id selected_service_id : Option String) (ignore_compute_lease : Bool) (now : ℕ) → Db
    → Request
    → Bool
unfolding service_clause
is_queued_for env node_id eligible batch_id service_id ignore now db r =
    r.state == State.queued
    && free_or_on node_id r
    && eligible_profile eligible r
    && in_batch batch_id r
    && service_clause env batch_id service_id ignore now db r

-- order by priority, created_at, request_id
unfoldable pub by_creation : Request → Request → Bool
unfolding before
by_creation a b =
    ltb_ℤ a.priority b.priority
    || a.priority == b.priority
      && (ltb a.created_at b.created_at
          || a.created_at == b.created_at && before a.request_id b.request_id)

unfoldable pub queued_rows :
    Env
    → (node_id : Option String) (eligible : List String)
    → (batch_id selected_service_id : Option String) (ignore_compute_lease : Bool) (limit now : ℕ)
    → Db
    → List Request
unfolding is_queued_for by_creation order_by
queued_rows env node_id eligible batch_id service_id ignore limit now db = take (max 1 limit) (
    order_by by_creation
      (select (is_queued_for env node_id eligible batch_id service_id ignore now db) db.requests))

-- NULL comes first.
abbrev null_ltb : Option ℕ → Option ℕ → Bool
null_ltb a none = false
null_ltb none (some n) = true
null_ltb (some m) (some n) = ltb m n

-- order by priority, ready_at, created_at, request_id
unfoldable pub by_readiness : Request → Request → Bool
unfolding before
by_readiness a b =
    ltb_ℤ a.priority b.priority
    || a.priority == b.priority
      && (null_ltb a.ready_at b.ready_at
          || same a.ready_at b.ready_at
            && (ltb a.created_at b.created_at
                || a.created_at == b.created_at && before a.request_id b.request_id))

-- The `where` of `_ready_rows`, before the scope of the first row is added.
unfoldable pub is_ready_for :
    Env
    → (node_id batch_id selected_service_id : Option String) (ignore_compute_lease : Bool)
    → (now : ℕ) → Db
    → Request
    → Bool
unfolding service_clause
is_ready_for env node_id batch_id service_id ignore now db r =
    r.state == State.ready
    && on_own_node node_id r
    && in_batch batch_id r
    && service_clause env batch_id service_id ignore now db r

-- `_ready_row_scope`: the rows that may share a batch with the first.
unfoldable pub in_scope : (shape_bucket : Bool) → (first : Request) → Request → Bool
in_scope shape_bucket first r =
    r.selected_profile_id == first.selected_profile_id
    && same r.selected_service_id first.selected_service_id
    && same r.selected_compute_domain first.selected_compute_domain
    && (not shape_bucket || r.priority == first.priority)

-- The arguments of `claim_ready_batch`; times are in ticks.
pub record Claiming : Type 0 where
  pub node_id : Option String
  pub batch_id : Option String
  pub limit : ℕ
  pub leased_by : String
  pub lease_ttl : ℕ
  pub batch_linger : ℕ
  pub batch_limits : ByService
  pub batch_token_limits : ByService
  pub decode_token_reserves : ByService
  pub compute_lease_id : Option String
  pub selected_service_id : Option String
  pub share_compute_domain : Bool
  pub ready_shape_bucketing : Bool
  pub ready_shape_lookahead : ℕ
  pub min_ready_rows : ℕ
  pub min_ready_timeout : ℕ
  pub min_ready_large_token_threshold : ℕ

-- The second query, once there is a first row.
unfoldable pub scoped_rows :
    Env → Claiming → (candidates : List Request) → (first : Request) → List Request
unfolding in_scope by_readiness order_by ready_shape_bucket service_batch_limit
scoped_rows env c candidates first =
    let limit = service_batch_limit first.selected_service_id c.batch_limits c.limit in
    let rows = order_by by_readiness (select (in_scope c.ready_shape_bucketing first) candidates) in
    if c.ready_shape_bucketing
    then ready_shape_bucket env (take (max limit (limit * max 1 c.ready_shape_lookahead)) rows)
        limit
    else take limit rows

unfoldable pub ready_rows : Env → Claiming → (now : ℕ) → Db → List Request
unfolding is_ready_for scoped_rows order_by by_readiness
ready_rows env c now db =
    let candidates =
      select
        (is_ready_for env c.node_id c.batch_id c.selected_service_id c.share_compute_domain now db)
        db.requests in
    elim (head? (order_by by_readiness candidates)) [
      | none ↦ []
      | some first ↦ scoped_rows env c candidates first
    ]

-- The `where` of `_has_recent_queued_peer`.
unfoldable pub is_peer : (node_id batch_id : Option String) → (first : Request) → Request → Bool
is_peer node_id batch_id first r =
    r.state == State.queued
    && r.selected_profile_id == first.selected_profile_id
    && free_or_on node_id r
    && in_batch batch_id r
    && same r.selected_service_id first.selected_service_id
    && same r.selected_compute_domain first.selected_compute_domain

-- The newest peer is recent exactly if some peer is.
unfoldable pub has_recent_queued_peer :
    List Request → (first : Request) (node_id batch_id : Option String) (now linger : ℕ) → Bool
unfolding is_peer
has_recent_queued_peer rs first node_id batch_id now linger =
    any (λ r. is_peer node_id batch_id first r && ltb now (r.updated_at + linger)) rs

unfoldable pub row_batch_request_count : Db → Request → ℕ
row_batch_request_count db row =
    elim (head? (select (λ b. b.batch_id == row.batch_id) db.batches)) [
      | none ↦ 1
      | some b ↦ max 1 b.request_count
    ]

-- row["ready_at"] or row["updated_at"] or now
abbrev pub ready_since : ℕ → Request → ℕ
ready_since now r =
    let fallback = if r.updated_at == 0 then now else r.updated_at in
    elim r.ready_at [ none ↦ fallback | some t ↦ if t == 0 then fallback else t ]

abbrev pub oldest : ℕ → Request → List Request → ℕ
oldest now row [] = ready_since now row
oldest now row (r ∷ rs) = min (ready_since now row) (oldest now r rs)

abbrev pub newest : ℕ → Request → List Request → ℕ
newest now row [] = ready_since now row
newest now row (r ∷ rs) = max (ready_since now row) (newest now r rs)

-- The rows are `first` and `rest`.
unfoldable pub should_wait_for_ready_floor :
    Env
    → Claiming
    → (first : Request) (rest : List Request) (decode_token_reserve now : ℕ) → Db
    → Bool
unfolding has_recent_queued_peer row_batch_request_count row_reserved_tokens
should_wait_for_ready_floor env c first rest reserve now db =
    let n = length (first ∷ rest) in
    if leb c.min_ready_rows 1 || leb c.min_ready_rows n
    then false
    else if ltb 0 c.min_ready_large_token_threshold
        && leb c.min_ready_large_token_threshold (row_reserved_tokens env reserve first)
    then false
    else if n == 1
        && leb (row_batch_request_count db first) 1
        && not
            (has_recent_queued_peer db.requests first c.node_id c.batch_id now c.min_ready_timeout)
    then false
    else if c.min_ready_timeout == 0
    then true
    else ltb now (oldest now first rest + c.min_ready_timeout)

-- `_node_depth`
unfoldable pub node_depth : List Request → String → ℕ
node_depth rs node_id =
    count
      (λ r.
        (elim r.request_kind [ Kind.model ↦ true | Kind.cpu ↦ false ])
        && (r.state == State.prefilling || r.state == State.ready || r.state == State.running)
        && holds r.selected_node_id node_id)
      rs
