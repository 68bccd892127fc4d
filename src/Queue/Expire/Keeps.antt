-- ===== src/Queue/Expire/Keeps.antt =====
-- `requeue_expired_leases` keeps the queue's invariant.
use ds4_on_spark.Prelude.{
  ℕ, ◌≡◌, ◌≢◌, refl, sym, subst, Bool, true, false, List, [], ◌∷◌, inl, inr, Bool-cases, All, arith,
  eq_iff, ◌==◌, string-Eq, nat-Eq, leb,
}
use Prim.Native.String.{◌++◌ as text_append}
use ds4_on_spark.Sql.{select, order_by, update}
use ds4_on_spark.Sql.Laws.{All-order_by, All-select_self}
use ds4_on_spark.Queue.Tables.{State, State-Eq, Request, Db, terminal}
use ds4_on_spark.Queue.Batches.{delete_request_kv}
use ds4_on_spark.Queue.ResultError.{Env}
use ds4_on_spark.Queue.Rows.{
  Fixes, Fixes-select, Fixes-update_other, IsKeyed, IsKeyed-select, IsKeyed-order_by, Evolves-trans,
}
use ds4_on_spark.Queue.Valid.{IsValid}
use ds4_on_spark.Queue.Frame.{
  SameTables-trans, SameTables-event, SameTables-write_notice, SameTables-release,
  SameTables-refresh_batch, Keeps, Keeps-refl, Keeps-one,
}
use ds4_on_spark.Queue.Loops.{ChangesOne}
use ds4_on_spark.Queue.Finish.{closed}
use ds4_on_spark.Queue.Finish.Keeps.{closed-IsSound}
use ds4_on_spark.Queue.Expire.{
  expired, expired_to_queue, expire_change, expire_row, expire_rows, requeue_expired_leases,
  failure,
}

module _ (env : Env) (max_attempts now : ℕ) (row : Request) (db : Db)
    (late : expired now row ≡ true) where
  by_id : (r : Request) → (r.request_id == row.request_id) ≡ true → r.request_id ≡ row.request_id
  by_id r e = (eq_iff r.request_id row.request_id).0 e

  live : terminal row.state ≡ false
  unfolding expired
  live = ground (arith, late)

  expire_change-ChangesOne : ChangesOne row db (expire_change env max_attempts now row db)
  unfolding expire_change
  expire_change-ChangesOne =
      let result = failure row.request_id (
        text_append "lease expired after "
          (text_append (env.decimal row.attempt_count) " attempts")) in
      elim (Bool-cases (leb max_attempts row.attempt_count)) [
        | inl out ↦ record {
          test = λ r. r.request_id == row.request_id;
          change = closed State.failed result "lease_expired" now;
          only = by_id;
          same = rw out (SameTables-write_notice _ _ _ _);
          keep = λ r. unfold closed in refl;
          moves =
              unfold closed in
              record {
                same_id = refl;
                same_batch = refl;
                same_profile = refl;
                same_payload = refl;
                attempts = omega arith;
                final = λ done. cc (live, done);
              };
          sound = closed-IsSound State.failed result "lease_expired" now row refl (λ e. cc);
        }
        | inr more ↦ record {
          test = λ r. r.request_id == row.request_id;
          change = expired_to_queue now;
          only = by_id;
          same = rw more (unfold delete_request_kv in record { requests = refl; batches = refl });
          keep = λ r. unfold expired_to_queue in ground arith;
          moves =
              unfold expired_to_queue in
              record {
                same_id = ground arith;
                same_batch = ground arith;
                same_profile = ground arith;
                same_payload = ground arith;
                attempts = ground arith;
                final = λ done. cc (live, done);
              };
          sound = λ v. unfold expired_to_queue in ground (arith, live);
        }
      ]

module _ (env : Env) (max_attempts now : ℕ) where
  others :
      (row : Request) (table : List Request) (p : Request → Bool) (f : Request → Request)
      → ((r : Request) → p r ≡ true → r.request_id ≡ row.request_id)
      → ((r : Request) → (f r).request_id ≡ r.request_id)
      → (rs : List Request) → All (λ s. s.request_id ≢ row.request_id) rs
      → All (Fixes table) rs
      → All (Fixes (update p f table)) rs
  others row table p f only keep [] ne fixed = tt
  others row table p f only keep (r ∷ rs) ne fixed = (
    Fixes-update_other row p f only r table keep ne.0 fixed.0,
    others row table p f only keep rs ne.1 fixed.1,
  )

  -- One pass, and what it leaves for the passes behind it.
  expire_row-Keeps :
      (row : Request) (rows : List Request) (db : Db)
      → expired now row ≡ true
      → All (λ s. s.request_id ≢ row.request_id) rows
      → All (Fixes db.requests) (row ∷ rows)
      → IsValid db
      → Keeps db (expire_row env max_attempts now row db)
        × All (Fixes (expire_row env max_attempts now row db).requests) rows
  unfolding expire_row
  expire_row-Keeps row rows db late ne fixed v =
      let c = expire_change-ChangesOne env max_attempts now row db late in
      let same = SameTables-refresh_batch row.batch_id (
        SameTables-trans (SameTables-event _ _ _ _ _)
          (SameTables-trans (SameTables-release row.compute_lease_id _) c.same)) in
      (
        Keeps-one row c.test c.change c.only db _ same c.keep c.moves c.sound fixed.0 v,
        subst (λ rs. All (Fixes rs) rows) (sym same.requests)
            (others row db.requests c.test c.change c.only c.keep rows ne fixed.1),
      )

  expire_rows-Keeps :
      (rows : List Request) (db : Db)
      → All (λ r. expired now r ≡ true) rows
      → IsKeyed rows
      → All (Fixes db.requests) rows
      → IsValid db
      → Keeps db (expire_rows env max_attempts now rows db)
  unfolding expire_rows
  expire_rows-Keeps [] db late keyed fixed v = Keeps-refl db v
  expire_rows-Keeps (row ∷ rows) db late keyed fixed v =
      let (one, left) = expire_row-Keeps row rows db late.0 keyed.0 fixed v in
      let more =
        expire_rows-Keeps rows (expire_row env max_attempts now row db) late.1 keyed.1 left
          one.valid in
      record {
        valid = more.valid;
        evolves = Evolves-trans db.requests _ _ one.evolves more.evolves;
      }

-- From a valid database, `requeue_expired_leases` leaves the tables valid; every row keeps its place, id, batch, profile and
-- payload, its attempt count never falls, and a row that is final is left as it is.
pub requeue_expired_leases-Keeps :
    (env : Env) (max_attempts now : ℕ) (db : Db)
    → IsValid db
    → Keeps db (requeue_expired_leases env max_attempts now db)
unfolding requeue_expired_leases
requeue_expired_leases-Keeps env max_attempts now db v =
    let rs = db.requests in
    let kept =
      expire_rows-Keeps env max_attempts now (order_by _ (select (expired now) rs))
        (record db { compute_leases = _ })
        (All-order_by (λ r. expired now r ≡ true) _ _ (All-select_self (expired now) rs))
        (IsKeyed-order_by _ _ (IsKeyed-select (expired now) rs v.keyed))
        (All-order_by (Fixes rs) _ _ (Fixes-select (expired now) rs v.keyed)) v in
    record { valid = kept.valid; evolves = kept.evolves }
