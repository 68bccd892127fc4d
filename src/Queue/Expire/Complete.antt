-- ===== src/Queue/Expire/Complete.antt =====
-- `requeue_expired_leases`: no lease that has expired is left.
use ds4_on_spark.Prelude.{
  ℕ, ◌≡◌, refl, sym, ◌∙◌, ap, subst, String, Bool, true, false, ◌||◌, List, [], ◌∷◌, All, All-map,
  any, leb, inl, inr, Bool-cases, arith, ==_self, ◌==◌, string-Eq, nat-Eq,
}
use Prim.Native.String.{◌++◌ as text_append}
use ds4_on_spark.Json.{Json}
use ds4_on_spark.Sql.{select, update, order_by, insert_sorted}
use ds4_on_spark.Queue.Tables.{State, State-Eq, Request, Db}
use ds4_on_spark.Queue.ResultError.{Env}
use ds4_on_spark.Queue.Frame.{SameTables-release}
use ds4_on_spark.Queue.Finish.{closed}
use ds4_on_spark.Queue.Expire.{
  expired, expired_to_queue, expire_change, expire_row, expire_rows, requeue_expired_leases, sooner,
  failure,
}

-- One of the rows has this row's id.
abbrev hits : List Request → Request → Bool
hits rows r = any (λ (s : Request). r.request_id == s.request_id) rows

hits-insert_sorted :
    (before : Request → Request → Bool) (a : Request) (rows : List Request) (r : Request)
    → hits (insert_sorted before a rows) r ≡ hits (a ∷ rows) r
unfolding insert_sorted
hits-insert_sorted before a [] r = refl
hits-insert_sorted before a (b ∷ rows) r = elim (Bool-cases (before b a)) [
  | inl e ↦ rw e (ground (arith, hits-insert_sorted before a rows r))
  | inr e ↦ rw e refl
]

hits-order_by :
    (before : Request → Request → Bool) (rows : List Request) (r : Request)
    → hits (order_by before rows) r ≡ hits rows r
unfolding order_by
hits-order_by before [] r = refl
hits-order_by before (a ∷ rows) r =
    hits-insert_sorted before a (order_by before rows) r
    ∙ ap (λ t. r.request_id == a.request_id || t) (hits-order_by before rows r)

-- Every expired row is among those that the query finds.
hits-select :
    (p : Request → Bool) (rs : List Request)
    → All (λ r. p r ≡ true → hits (select p rs) r ≡ true) rs
hits-select p [] = tt
hits-select p (r ∷ rs) = elim (Bool-cases (p r)) [
  | inl e ↦ rw e (
    (λ _. rw (==_self r.request_id) refl),
    All-map _ _ rs (λ x h is. ground (arith, h is)) (hits-select p rs),
  )
  | inr e ↦
      let shorter : select p (r ∷ rs) ≡ select p rs = rw e refl in
      (
        (λ is. cc (e, is)),
        subst (λ xs. All (λ x. p x ≡ true → hits xs x ≡ true) rs) (sym shorter) (hits-select p rs),
      )
]

not_late-closed :
    (now : ℕ) (j : Json) (e : String) (r : Request)
    → expired now (closed State.failed j e now r) ≡ false
unfolding expired closed
not_late-closed now j e r = refl

not_late-queued : (now : ℕ) (r : Request) → expired now (expired_to_queue now r) ≡ false
unfolding expired expired_to_queue
not_late-queued now r = refl

-- One pass, as an update of the rows with the row's id.
expire_row-update :
    (env : Env) (max_attempts now : ℕ) (row : Request) (db : Db)
    → (f : Request → Request) × ((r : Request) → expired now (f r) ≡ false)
      × ((expire_row env max_attempts now row db).requests
          ≡ update (λ r. r.request_id == row.request_id) f db.requests)
unfolding expire_row
expire_row-update env max_attempts now row db =
    let result = failure row.request_id (
      text_append "lease expired after "
        (text_append (env.decimal row.attempt_count) " attempts")) in
    let released =
      SameTables-release row.compute_lease_id (expire_change env max_attempts now row db) in
    elim (Bool-cases (leb max_attempts row.attempt_count)) [
      | inl e ↦ (
        closed State.failed result "lease_expired" now,
        (λ r. not_late-closed now result "lease_expired" r),
        released.requests ∙ (unfold expire_change in rw e refl),
      )
      | inr e ↦ (
        expired_to_queue now,
        (λ r. not_late-queued now r),
        released.requests ∙ (unfold expire_change in rw e refl),
      )
    ]

module _ (env : Env) (max_attempts now : ℕ) where
  update-Left :
      (row : Request) (rows : List Request) (f : Request → Request)
      → ((r : Request) → expired now (f r) ≡ false)
      → (table : List Request) → All (λ r. expired now r ≡ true → hits (row ∷ rows) r ≡ true) table
      → All
          (λ r. expired now r ≡ true → hits rows r ≡ true)
          (update (λ r. r.request_id == row.request_id) f table)
  update-Left row rows f done [] h = tt
  update-Left row rows f done (r ∷ table) h = elim (Bool-cases (r.request_id == row.request_id)) [
    | inl e ↦ rw e ((λ late. cc (late, done r)), update-Left row rows f done table h.1)
    | inr e ↦ rw e ((λ late. ground (arith, h.0 late, e)), update-Left row rows f done table h.1)
  ]

  expire_rows-none :
      (rows : List Request) (db : Db)
      → All (λ r. expired now r ≡ true → hits rows r ≡ true) db.requests
      → All (λ r. expired now r ≡ false) (expire_rows env max_attempts now rows db).requests
  unfolding expire_rows
  expire_rows-none [] db h =
      All-map _ _ db.requests
        (λ r k. elim (Bool-cases (expired now r)) [ inl e ↦ cc (k e) | inr e ↦ e ]) h
  expire_rows-none (row ∷ rows) db h =
      let (f, done, same) = expire_row-update env max_attempts now row db in
      expire_rows-none rows (expire_row env max_attempts now row db) (
        subst (λ rs. All (λ r. expired now r ≡ true → hits rows r ≡ true) rs) (sym same)
          (update-Left row rows f done db.requests h))

-- After `requeue_expired_leases`, no row that is prefilling or running has a lease that has expired:
-- each request of a dead worker has gone back to the queue or has failed.
pub requeue_expired_leases-none :
    (env : Env) (max_attempts now : ℕ) (db : Db)
    → All (λ r. expired now r ≡ false) (requeue_expired_leases env max_attempts now db).requests
unfolding requeue_expired_leases
requeue_expired_leases-none env max_attempts now db =
    let found = select (expired now) db.requests in
    expire_rows-none env max_attempts now (order_by sooner found) (record db { compute_leases = _ })
      (All-map (λ r. expired now r ≡ true → hits found r ≡ true) _ db.requests
        (λ r h late. hits-order_by sooner found r ∙ h late) (hits-select (expired now) db.requests))
