-- ===== src/Queue/Ready/Laws.antt =====
-- What the queries of `_queued_rows`, `_ready_rows` and `_ready_shape_bucket` keep of the table.
use ds4_on_spark.Prelude.{
  ◌*◌, ℕ, ◌≡◌, String, Bool, true, false, Option, none, some, List, [], ◌∷◌, All, All-map,
  All-append, inl, inr, Bool-cases, arith, head?, take, min, max, ltb, length, if◌then◌else◌, ◌==◌,
  string-Eq,
}
use ds4_on_spark.Sql.{select, order_by}
use ds4_on_spark.Sql.Laws.{All-select, All-select_if, All-order_by, All-take}
use ds4_on_spark.Queue.Tables.{State, State-Eq, Request, Db}
use ds4_on_spark.Queue.ResultError.{Env}
use ds4_on_spark.Queue.Shape.{
  Buckets, add_row, buckets_of, best_of, ready_shape_bucket, ready_shape_key,
}
use ds4_on_spark.Queue.Ready.{
  queued_rows, is_queued_for, by_creation, service_batch_limit, ready_rows, is_ready_for, in_scope,
  by_readiness, scoped_rows, Claiming,
}

module _ {κ} (P : Request → Type κ) where
  All-add_row :
      (key : String) (row : Request) (bs : Buckets)
      → P row
      → All (λ b. All P b.1) bs
      → All (λ b. All P b.1) (add_row key row bs)
  unfolding add_row
  All-add_row key row [] h k = ((h, tt), tt)
  All-add_row key row ((n, rs) ∷ bs) h k = elim (Bool-cases (n == key)) [
    | inl e ↦ rw e (All-append P rs (row ∷ []) k.0 (h, tt), k.1)
    | inr e ↦ rw e (k.0, All-add_row key row bs h k.1)
  ]

  All-buckets_of :
      (key : Request → String) (rs : List Request) (bs : Buckets)
      → All P rs
      → All (λ b. All P b.1) bs
      → All (λ b. All P b.1) (buckets_of key rs bs)
  unfolding buckets_of
  All-buckets_of key [] bs h k = k
  All-buckets_of key (r ∷ rs) bs h k =
      All-buckets_of key rs (add_row (key r) r bs) h.1 (All-add_row (key r) r bs h.0 k)

  All-best_of :
      (limit : ℕ) (best : List Request) (bs : Buckets)
      → All P best
      → All (λ b. All P b.1) bs
      → All P (best_of limit best bs)
  unfolding best_of
  All-best_of limit best [] h k = h
  All-best_of limit best ((n, rs) ∷ bs) h k =
      elim (Bool-cases (ltb (min (length best) limit) (min (length rs) limit))) [
        | inl e ↦ rw e (All-best_of limit rs bs k.0 k.1)
        | inr e ↦ rw e (All-best_of limit best bs h k.1)
      ]

  pub All-ready_shape_bucket :
      (env : Env) (rs : List Request) (limit : ℕ)
      → All P rs
      → All P (ready_shape_bucket env rs limit)
  unfolding ready_shape_bucket
  All-ready_shape_bucket env rs limit h =
      All-take P limit _
        (All-best_of limit [] _ tt (All-buckets_of (ready_shape_key env) rs [] h tt))

  pub All-queued_rows :
      (env : Env) (node_id : Option String) (eligible : List String)
      (batch_id service_id : Option String) (ignore : Bool) (limit now : ℕ) (db : Db)
      → All (λ r. r.state ≡ State.queued → P r) db.requests
      → All P (queued_rows env node_id eligible batch_id service_id ignore limit now db)
  unfolding queued_rows
  All-queued_rows env node_id eligible batch_id service_id ignore limit now db h =
      let p = is_queued_for env node_id eligible batch_id service_id ignore now db in
      let rows = select p db.requests in
      let found =
        All-map (λ r. r.state ≡ State.queued → P r) _ db.requests
          (λ r is e. is (unfold is_queued_for in ground (arith, e))) h in
      All-take P (max 1 limit) (order_by by_creation rows)
        (All-order_by P by_creation rows (All-select_if P p db.requests found))

module _ {κ} (P : Request → Type κ) where
  pub All-if :
      (b : Bool) (rs ss : List Request) → All P rs → All P ss → All P (if b then rs else ss)
  All-if true rs ss h k = h
  All-if false rs ss h k = k

  pub All-scoped_rows :
      (env : Env) (c : Claiming) (rows : List Request) (first : Request)
      → All P rows
      → All P (scoped_rows env c rows first)
  unfolding scoped_rows
  All-scoped_rows env c rows first h =
      let limit = service_batch_limit first.selected_service_id c.batch_limits c.limit in
      let more = max limit (limit * max 1 c.ready_shape_lookahead) in
      let test = in_scope c.ready_shape_bucketing first in
      let sorted = order_by by_readiness (select test rows) in
      let kept = All-order_by P by_readiness (select test rows) (All-select P test rows h) in
      All-if c.ready_shape_bucketing (ready_shape_bucket env (take more sorted) limit)
        (take limit sorted)
        (All-ready_shape_bucket P env (take more sorted) limit (All-take P more sorted kept))
        (All-take P limit sorted kept)

  pub All-ready_rows :
      (env : Env) (c : Claiming) (now : ℕ) (db : Db)
      → All (λ r. r.state ≡ State.ready → P r) db.requests
      → All P (ready_rows env c now db)
  unfolding ready_rows
  All-ready_rows env c now db h =
      let test =
        is_ready_for env c.node_id c.batch_id c.selected_service_id c.share_compute_domain now db in
      let rows = select test db.requests in
      let found =
        All-map (λ r. r.state ≡ State.ready → P r) _ db.requests
          (λ r is e. is (unfold is_ready_for in ground (arith, e))) h in
      go rows (head? (order_by by_readiness rows)) (All-select_if P test db.requests found)
    where
      go :
          (rows : List Request) (o : Option Request)
          → All P rows
          → All P (elim o [ none ↦ [] | some first ↦ scoped_rows env c rows first ])
      go rows none k = tt
      go rows (some first) k = All-scoped_rows env c rows first k
