-- ===== src/Queue/Prepare/Keeps.antt =====
-- `prepare_ready` keeps the queue's invariant.
use ds4_on_spark.Prelude.{
  ℕ, ◌≡◌, refl, ap, subst, String, Bool, true, false, ◌&&◌, Option, none, some, List, [], ◌∷◌, All,
  All-map, count, leb, length, inl, inr, Bool-cases, Option-cases, arith, not, ltb, if◌then◌else◌,
  eq_iff, ◌==◌, string-Eq, nat-Eq,
}
use ds4_on_spark.Sql.{select}
use ds4_on_spark.Queue.Tables.{State-Eq, Request, Db, terminal, or_empty}
use ds4_on_spark.Queue.Batches.{listed}
use ds4_on_spark.Queue.ResultError.{Env}
use ds4_on_spark.Queue.Kv.{
  Layout, reserve_kv, reserve_legacy_kv, reserve_pipeline_kv, evictions, shards_of, row_node_ids,
}
use ds4_on_spark.Queue.Rows.{Fixes, Fixes-self}
use ds4_on_spark.Queue.Valid.{IsValid}
use ds4_on_spark.Queue.Frame.{SameTables, SameTables-refl, SameTables-event, Keeps, Keeps-refl}
use ds4_on_spark.Queue.Loops.{listed_each, add_id-listed}
use ds4_on_spark.Queue.Passes.{
  Live, Live-Fixes, Passing, Passing-start, Passing-same, Passing-tail, Passing-step, Passing-still,
  Passing-none, Keeps-Passing, Changes, count-IsKeyed,
}
use ds4_on_spark.Queue.Ready.{queued_rows}
use ds4_on_spark.Queue.Ready.Laws.{All-queued_rows}
use ds4_on_spark.Queue.Prepare.{
  with_touched, node_ids_of, Preparing, remaining, bind_node, prepared, is_queued, make_ready,
  prepare_row, prepare_rows, prepare_ready,
}

prepared-Changes :
    (id : String) (bound : Option String) (node_ids : Option (List String)) (now : ℕ)
    → Changes id (is_queued id) (prepared bound node_ids now)
unfolding prepared
prepared-Changes id bound node_ids now = record {
  only = λ r e. ground (arith, e, eq_iff r.request_id id);
  kept = record { keep = λ r. refl; batch = λ r. refl; lives = λ r e. refl };
  moves = λ r e live. record {
    same_id = refl;
    same_batch = refl;
    same_profile = refl;
    same_payload = refl;
    attempts = omega arith;
    final = λ done. cc (live, done);
  };
  sound = λ r e v. ground (arith, e);
}

-- The columns that a pipeline reservation writes.
sized-Changes :
    (id : String) (count bytes : ℕ)
    → Changes id
        (λ r. r.request_id == id)
        (λ r. record r { kv_shard_count = count; kv_shard_bytes = bytes })
sized-Changes id count bytes = record {
  only = λ r e. (eq_iff r.request_id id).0 e;
  kept = record { keep = λ r. refl; batch = λ r. refl; lives = λ r live. live };
  moves = λ r e live. record {
    same_id = refl;
    same_batch = refl;
    same_profile = refl;
    same_payload = refl;
    attempts = omega arith;
    final = λ done. cc (live, done);
  };
  sound = λ r e v. record {
    leased = v.leased;
    owned = v.owned;
    bounded = v.bounded;
    beaten = v.beaten;
    closed = v.closed;
    answered = v.answered;
    explained = v.explained;
    timed = v.timed;
    unshared = v.unshared;
  };
}

SameTables-reserve_legacy_kv :
    (row : Request) (node_id : Option String) (key : String) (need capacity now : ℕ) (db : Db)
    → SameTables (reserve_legacy_kv row node_id key need capacity now db).1 db
unfolding reserve_legacy_kv
SameTables-reserve_legacy_kv row none key need capacity now db = SameTables-refl db
SameTables-reserve_legacy_kv row (some n) key need capacity now db = record {
  requests = refl;
  batches = refl;
}

module _ (bs : List String) (start : Db) (row : Request) (rows : List Request) where
  reserve_pipeline_kv-Passing :
      (service_id : String) (node_ids : List String) (key : String) (need capacity now : ℕ)
      (layout : Option Layout) (db : Db)
      → Passing bs (row ∷ rows) start db
      → Passing bs
          (row ∷ rows)
          start
          (reserve_pipeline_kv row service_id node_ids key need capacity now layout db).1
  unfolding reserve_pipeline_kv
  reserve_pipeline_kv-Passing service_id node_ids key need capacity now layout db inv =
      let shards = shards_of row node_ids key need layout in
      elim (Bool-cases (length shards == 0)) [
        | inl e ↦ rw e inv
        | inr e ↦
            rw e (elim (Option-cases (evictions service_id capacity db.kv_shard_entries shards)) [
              | inl e2 ↦ rw e2 inv
              | inr (drops, e2) ↦ rw e2 (
                  Passing-still (λ r. r.request_id == row.request_id) _
                    (sized-Changes row.request_id _ _) (λ r. refl)
                    (Passing-same (record { requests = refl; batches = refl }) inv))
            ])
      ]

  Passing-if :
      (b : Bool) (x y : Bool × Db)
      → Passing bs (row ∷ rows) start x.1
      → Passing bs (row ∷ rows) start y.1
      → Passing bs (row ∷ rows) start (if b then x else y).1
  Passing-if true x y h k = h
  Passing-if false x y h k = k

  reserve_kv-Passing :
      (node_id : Option String) (capacity now : ℕ) (layout : Option Layout) (db : Db)
      → Passing bs (row ∷ rows) start db
      → Passing bs (row ∷ rows) start (reserve_kv row node_id capacity now layout db).1
  unfolding reserve_kv
  reserve_kv-Passing node_id capacity now layout db inv =
      let key = or_empty row.kv_key in
      let service_id = or_empty row.selected_service_id in
      let node_ids = row_node_ids row node_id in
      let staged =
        reserve_pipeline_kv row service_id node_ids key row.kv_bytes capacity now layout db in
      let plain = reserve_legacy_kv row node_id key row.kv_bytes capacity now db in
      Passing-if _ (true, db)
        (if not (service_id == "") && ltb 1 (length node_ids) then staged else plain) inv
        (Passing-if _ staged plain
          (reserve_pipeline_kv-Passing service_id node_ids key row.kv_bytes capacity now layout db
            inv)
          (Passing-same (SameTables-reserve_legacy_kv row node_id key row.kv_bytes capacity now db)
            inv))

abbrev Touches : List String → Option String → Type 0
Touches bs none = Unit
Touches bs (some b) = listed bs b ≡ true

module _ (env : Env) (p : Preparing) (now : ℕ) (bs : List String) (start : Db) where
  make_ready-Passing :
      (row : Request) (rows : List Request) (db : Db)
      → Touches bs (make_ready env p now row db).0
      → Passing bs (row ∷ rows) start db
      → Passing bs rows start (make_ready env p now row db).1
  unfolding make_ready
  make_ready-Passing row rows db ok inv =
      let test = is_queued row.request_id in
      let c =
        prepared-Changes row.request_id (bind_node p row) (node_ids_of row (bind_node p row)) now in
      let n = count test db.requests in
      let drawn = Passing-same (record { requests = refl; batches = refl }) inv in
      elim (Bool-cases (leb n 1 && leb 1 n)) [
        | inl e ↦
            let inside : listed bs row.batch_id ≡ true = rw e at ok in
            rw e (Passing-same (SameTables-event _ _ _ _ _) (Passing-step test _ c inside drawn))
        | inr e ↦
            let most = count-IsKeyed row.request_id test c.only db.requests inv.settled.keyed in
            rw e (Passing-none test _ (ground (arith, e, most)) drawn)
      ]

  prepare_row-Passing :
      (row : Request) (rows : List Request) (db : Db)
      → Touches bs (prepare_row env p now row db).0
      → Passing bs (row ∷ rows) start db
      → Passing bs rows start (prepare_row env p now row db).1
  unfolding prepare_row
  prepare_row-Passing row rows db ok inv =
      let layout = p.kv_shard_layouts row.selected_profile_id in
      let got = reserve_kv row (bind_node p row) p.kv_capacity_bytes now layout db in
      let kept =
        reserve_kv-Passing bs start row rows (bind_node p row) p.kv_capacity_bytes now layout db
          inv in
      elim (Bool-cases got.0) [
        | inl e ↦ rw e (make_ready-Passing row rows got.1 (rw e at ok) kept)
        | inr e ↦ rw e (Passing-same (SameTables-event _ _ _ _ _) (Passing-tail kept))
      ]

  prepare_rows-Passing :
      (rows : List Request) (db : Db)
      → All (λ b. listed bs b ≡ true) (prepare_rows env p now rows db).1
      → Passing bs rows start db
      → Passing bs [] start (prepare_rows env p now rows db).2
  unfolding prepare_rows
  prepare_rows-Passing [] db ok inv = inv
  prepare_rows-Passing (row ∷ rows) db ok inv =
      go (prepare_row env p now row db) refl ok (prepare_rows-Passing rows)
    where
      go :
          (one : Option String × Db)
          → prepare_row env p now row db ≡ one
          → All (λ b. listed bs b ≡ true) (with_touched one.0 (prepare_rows env p now rows one.1)).1
          → ((db1 : Db)
              → All (λ b. listed bs b ≡ true) (prepare_rows env p now rows db1).1
              → Passing bs rows start db1
              → Passing bs [] start (prepare_rows env p now rows db1).2)
          → Passing bs [] start (with_touched one.0 (prepare_rows env p now rows one.1)).2
      go (none, db1) e h next =
          next db1 h (
            subst (λ x. Passing bs rows start x.1) e
              (prepare_row-Passing row rows db (rw e tt) inv))
      go (some b, db1) e h next =
          let rest = prepare_rows env p now rows db1 in
          let inside = add_id-listed _ b rest.1 h in
          next db1 inside.1 (
            subst (λ x. Passing bs rows start x.1) e
              (prepare_row-Passing row rows db (rw e inside.0) inv))

-- From a valid database, `prepare_ready`, whatever it makes ready, leaves the tables valid; every row keeps its place, id, batch, profile and
-- payload, its attempt count never falls, and a row that is final is left as it is.
pub prepare_ready-Keeps :
    (env : Env) (p : Preparing) (now : ℕ) (db : Db)
    → IsValid db
    → Keeps db (prepare_ready env p now db).1
unfolding prepare_ready
prepare_ready-Keeps env p now db v = elim (Bool-cases (leb (remaining p db.requests) 0)) [
  | inl e ↦ rw e (Keeps-refl db v)
  | inr e ↦
      let eligible = select (λ x. not (x == "")) p.eligible_profile_ids in
      let rows =
        queued_rows env p.node_id eligible p.batch_id p.selected_service_id p.share_compute_domain
          (remaining p db.requests) now db in
      let done = prepare_rows env p now rows db in
      let found =
        All-queued_rows (Live db.requests) env p.node_id eligible p.batch_id p.selected_service_id
          p.share_compute_domain (remaining p db.requests) now db
          (All-map (Fixes db.requests) _ db.requests
            (λ r fix is. Live-Fixes db.requests r (ap terminal is) fix)
            (Fixes-self db.requests v.keyed)) in
      rw e (
        Keeps-Passing (
          prepare_rows-Passing env p now done.1 db rows db (listed_each done.1)
            (Passing-start done.1 rows db v found)))
]
