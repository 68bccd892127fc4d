-- ===== src/Queue/Expire/Release.antt =====
-- `_release_prefilling_locked` keeps the queue's invariant.
use ds4_on_spark.Prelude.{
  ℕ, ◌≡◌, refl, sym, ◌∙◌, ap, subst, String, Bool, true, false, ◌&&◌, ◌||◌, some, List, [], ◌∷◌,
  All, All-map, map, length, ltb, inl, inr, Bool-cases, arith, eq_iff, ◌==◌, string-Eq, nat-Eq,
}
use ds4_on_spark.Sql.{select, order_by, insert_sorted, update}
use ds4_on_spark.Sql.Laws.{All-update_if, All-order_by, All-select_self}
use ds4_on_spark.Queue.Tables.{Batch, State, State-Eq, Request, Db}
use ds4_on_spark.Queue.Batches.{listed, update_requests}
use ds4_on_spark.Queue.Leases.{one_of}
use ds4_on_spark.Queue.Text.{before}
use ds4_on_spark.Queue.Rows.{Moves, IsKeyed-update, Fixes, Fixes-select, Evolves-update}
use ds4_on_spark.Queue.Valid.{
  IsValid, IsSound, IsSettledBut, IsSettledBut-weaken, CountedBut-update, IsValid-refresh_batches,
  requests-refresh_batches,
}
use ds4_on_spark.Queue.Frame.{
  SameTables, SameTables-refl, SameTables-trans, SameTables-event, SameTables-release, Keeps,
  Keeps-refl,
}
use ds4_on_spark.Queue.Loops.{batch_ids-listed}
use ds4_on_spark.Queue.Cancel.{batch_ids}
use ds4_on_spark.Queue.Expire.{stale_prefilling, released_row, release_events, release_prefilling}

listed-insert_sorted :
    (a x : String) (bs : List String) → listed (insert_sorted before a bs) x ≡ listed (a ∷ bs) x
unfolding insert_sorted
listed-insert_sorted a x [] = refl
listed-insert_sorted a x (b ∷ bs) = elim (Bool-cases (before b a)) [
  | inl e ↦ rw e (ground (arith, listed-insert_sorted a x bs))
  | inr e ↦ rw e refl
]

listed-order_by : (x : String) (bs : List String) → listed (order_by before bs) x ≡ listed bs x
unfolding order_by
listed-order_by x [] = refl
listed-order_by x (b ∷ bs) =
    listed-insert_sorted b x (order_by before bs) ∙ ap (λ t. x == b || t) (listed-order_by x bs)

All-both {κ μ} :
    (P : Request → Type κ) (Q : Request → Type μ) (rs : List Request)
    → All P rs
    → All Q rs
    → All (λ r. P r × Q r) rs
All-both P Q [] h k = tt
All-both P Q (r ∷ rs) h k = ((h.0, k.0), All-both P Q rs h.1 k.1)

-- The rows of the table whose ids were read are the rows that were read.
reached {κ} :
    (Q : Request → Type κ) (table rows : List Request)
    → All (Fixes table) rows
    → All Q rows
    → All
        (λ r. one_of (map (λ (s : Request). s.request_id) rows) (some r.request_id) ≡ true → Q r)
        table
reached Q table [] fixed h = All_none table
  where
    All_none : (rs : List Request) → All (λ r. false ≡ true → Q r) rs
    All_none [] = tt
    All_none (r ∷ rs) = ((λ e. cc e), All_none rs)
reached Q table (row ∷ rows) fixed h =
    All-map _ _ table
      (λ r both e. elim (Bool-cases (r.request_id == row.request_id)) [
        | inl same ↦ subst Q (sym (both.0 ((eq_iff r.request_id row.request_id).0 same))) h.0
        | inr other ↦ both.1 (ground (arith, e, other))
      ])
      (All-both (λ r. r.request_id ≡ row.request_id → r ≡ row)
        (λ r. one_of (map (λ (s : Request). s.request_id) rows) (some r.request_id) ≡ true → Q r)
        table fixed.0 (reached Q table rows fixed.1 h.1))

SameTables-release_events :
    (reason : String) (rows : List Request) (db : Db)
    → SameTables (release_events reason rows db) db
unfolding release_events
SameTables-release_events reason [] db = SameTables-refl db
SameTables-release_events reason (row ∷ rows) db =
    SameTables-trans (SameTables-release_events reason rows _)
      (SameTables-trans (SameTables-release row.compute_lease_id _) (SameTables-event _ _ _ _ _))

released-IsSound :
    (now : ℕ) (r : Request) → r.state ≡ State.prefilling → IsSound r → IsSound (released_row now r)
unfolding released_row
released-IsSound now r waits v = ground (arith, waits)

released-Moves : (now : ℕ) (r : Request) → r.state ≡ State.prefilling → Moves r (released_row now r)
unfolding released_row
released-Moves now r waits = record {
  same_id = ground arith;
  same_batch = ground arith;
  same_profile = ground arith;
  same_payload = ground arith;
  attempts = ground arith;
  final = λ done. cc (waits, done);
}

released-same :
    (now : ℕ) (r : Request)
    → ((released_row now r).request_id ≡ r.request_id)
      × ((released_row now r).batch_id ≡ r.batch_id)
unfolding released_row
released-same now r = (ground arith, ground arith)

module _ (now : ℕ) (bs : List String) (table rows : List Request)
    (found : All (λ r. (r.state ≡ State.prefilling) × (listed bs r.batch_id ≡ true)) rows)
    (fixed : All (Fixes table) rows) where
  abbrev reach : Request → Bool
  reach r = one_of (map (λ (s : Request). s.request_id) rows) (some r.request_id)

  released_table :
      All (λ r. reach r ≡ true → (r.state ≡ State.prefilling) × (listed bs r.batch_id ≡ true)) table
  released_table =
      reached (λ r. (r.state ≡ State.prefilling) × (listed bs r.batch_id ≡ true)) table rows fixed
        found

  released-settled :
      (batches : List Batch)
      → IsSettledBut bs table batches
      → IsSettledBut bs (update reach (released_row now) table) batches
  released-settled batches v = record {
    keyed = IsKeyed-update reach (released_row now) table (λ r. (released-same now r).0) v.keyed;
    sound =
        All-update_if IsSound reach (released_row now) table
          (All-map _ _ table (λ r both e. released-IsSound now r (both.0 e).0 both.1)
            (All-both _ IsSound table released_table v.sound))
          v.sound;
    counted =
        CountedBut-update reach (released_row now) bs table
          (All-map _ _ table (λ r is e. ((released-same now r).1, (is e).1)) released_table) batches
          v.counted;
  }

-- Releasing stale prefills keeps the tables valid, and moves only rows that may move.
pub release_prefilling-Keeps :
    (reason : String) (stale now : ℕ) (db : Db)
    → IsValid db
    → Keeps db (release_prefilling reason stale now db).1
unfolding release_prefilling
release_prefilling-Keeps reason stale now db v =
    let by_age = λ (a b : Request).
      ltb a.updated_at b.updated_at
      || a.updated_at == b.updated_at && before a.request_id b.request_id in
    let table = db.requests in
    let rows = order_by by_age (select (stale_prefilling stale now) table) in
    let bs = order_by before (batch_ids rows) in
    let fixed =
      All-order_by (Fixes table) by_age _
        (Fixes-select (stale_prefilling stale now) table v.keyed) in
    let states =
      All-order_by (λ r. stale_prefilling stale now r ≡ true) by_age _
        (All-select_self (stale_prefilling stale now) table) in
    let found =
      All-map _ _ rows
        (λ r both. (
          unfold stale_prefilling in ground (arith, both.0),
          listed-order_by r.batch_id (batch_ids rows) ∙ both.1,
        ))
        (All-both (λ r. stale_prefilling stale now r ≡ true)
          (λ r. listed (batch_ids rows) r.batch_id ≡ true) rows states (batch_ids-listed rows)) in
    let settled =
      released-settled now bs table rows found fixed db.batches
        (IsSettledBut-weaken [] bs table db.batches (λ b _. refl) v) in
    let ids = map (λ (r : Request). r.request_id) rows in
    let db1 = update_requests (λ r. one_of ids (some r.request_id)) (released_row now) db in
    let same = SameTables-release_events reason rows db1 in
    elim (Bool-cases (length rows == 0)) [
      | inl e ↦ rw e (Keeps-refl db v)
      | inr e ↦ rw e (record {
        valid = IsValid-refresh_batches bs (release_events reason rows db1) (
            subst (λ rs. IsSettledBut bs rs (release_events reason rows db1).batches)
              (sym same.requests)
              (subst (λ xs. IsSettledBut bs db1.requests xs) (sym same.batches) settled));
        evolves =
            rw (requests-refresh_batches bs (release_events reason rows db1), same.requests)
              (Evolves-update (λ r. one_of ids (some r.request_id)) (released_row now) table
                (All-map _ _ table (λ r is e. released-Moves now r (is e).0)
                  (released_table now bs table rows found fixed)));
      })
    ]
