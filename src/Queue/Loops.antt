-- ===== src/Queue/Loops.antt =====
-- The loops over the rows of a query: each pass changes the rows of one id, and the batches that
-- were touched are counted anew at the end.
use ds4_on_spark.Prelude.{
  ◌≡◌, ◌≢◌, refl, sym, subst, Bool, true, String, List, [], ◌∷◌, All, All-map, inl, inr, Bool-cases,
  arith, ◌==◌, string-Eq, eq_iff, ==_self,
}
use ds4_on_spark.Sql.{update}
use ds4_on_spark.Queue.Tables.{Request, Db}
use ds4_on_spark.Queue.Batches.{listed, add_id, update_requests, refresh_batches}
use ds4_on_spark.Queue.Cancel.{batch_ids}
use ds4_on_spark.Queue.Rows.{
  Moves, Evolves, Evolves-refl, Evolves-trans, IsKeyed, Fixes, Evolves-update_one,
  Fixes-update_other,
}
use ds4_on_spark.Queue.Valid.{
  IsSound, IsSettledBut, IsValid, IsSettledBut-update_one, IsSettledBut-weaken,
  IsValid-refresh_batches, requests-refresh_batches,
}
use ds4_on_spark.Queue.Frame.{SameTables, Keeps}

-- What one pass does.
pub record ChangesOne (row : Request) (a b : Db) : Type 0 where
  pub test : Request → Bool
  pub change : Request → Request
  pub only : (r : Request) → test r ≡ true → r.request_id ≡ row.request_id
  pub same : SameTables b (update_requests test change a)
  pub keep : (r : Request) → (change r).request_id ≡ r.request_id
  pub moves : Moves row (change row)
  pub sound : IsSound row → IsSound (change row)

-- The state of a loop before the pass for the first of `rows`; the batches that it may touch are
-- listed.
pub record LoopInv (bs : List String) (rows : List Request) (start db : Db) : Type 0 where
  pub settled : IsSettledBut bs db.requests db.batches
  pub keyed : IsKeyed rows
  pub fixed : All (Fixes db.requests) rows
  pub evolves : Evolves start.requests db.requests

pub LoopInv-start :
    (bs : List String) (rows : List Request) (db : Db)
    → IsValid db
    → IsKeyed rows
    → All (Fixes db.requests) rows
    → LoopInv bs rows db db
LoopInv-start bs rows db v keyed fixed = record {
  settled = IsSettledBut-weaken [] bs db.requests db.batches (λ b _. refl) v;
  keyed = keyed;
  fixed = fixed;
  evolves = Evolves-refl db.requests;
}

pub LoopInv-same :
    {bs : List String} {rows : List Request} {start a b : Db}
    → SameTables b a
    → LoopInv bs rows start a
    → LoopInv bs rows start b
LoopInv-same {bs} {rows} {start} {a} {b} h inv = record {
  settled =
      subst (λ rs. IsSettledBut bs rs b.batches) (sym h.requests)
        (subst (λ xs. IsSettledBut bs a.requests xs) (sym h.batches) inv.settled);
  keyed = inv.keyed;
  fixed = rw h.requests inv.fixed;
  evolves = rw h.requests inv.evolves;
}

pub LoopInv-tail :
    {bs : List String} {row : Request} {rows : List Request} {start db : Db}
    → LoopInv bs (row ∷ rows) start db
    → LoopInv bs rows start db
LoopInv-tail inv = record {
  settled = inv.settled;
  keyed = inv.keyed.1;
  fixed = inv.fixed.1;
  evolves = inv.evolves;
}

-- One pass.
pub LoopInv-step :
    {bs : List String} {row : Request} {rows : List Request} {start a b : Db}
    → listed bs row.batch_id ≡ true
    → ChangesOne row a b
    → LoopInv bs (row ∷ rows) start a
    → LoopInv bs rows start b
LoopInv-step {bs} {row} {rows} {start} {a} inside c inv = LoopInv-same c.same (record {
  settled =
      IsSettledBut-update_one row c.test c.change c.only bs a.requests a.batches c.keep
        c.moves.same_batch inside c.sound inv.fixed.0 inv.settled;
  keyed = inv.keyed.1;
  fixed = others rows inv.keyed.0 inv.fixed.1;
  evolves =
      Evolves-trans start.requests a.requests (update c.test c.change a.requests) inv.evolves
        (Evolves-update_one row c.test c.change c.only a.requests inv.fixed.0 c.moves);
})
  where
    others :
        (rs : List Request)
        → All (λ s. s.request_id ≢ row.request_id) rs
        → All (Fixes a.requests) rs
        → All (Fixes (update c.test c.change a.requests)) rs
    others [] ne f = tt
    others (r ∷ rs) ne f = (
      Fixes-update_other row c.test c.change c.only r a.requests c.keep ne.0 f.0,
      others rs ne.1 f.1,
    )

-- The end of the loop.
pub Keeps-end :
    {bs : List String} {rows : List Request} {start db : Db}
    → LoopInv bs rows start db
    → Keeps start (refresh_batches bs db)
Keeps-end {bs} {rows} {start} {db} inv = record {
  valid = IsValid-refresh_batches bs db inv.settled;
  evolves = rw (requests-refresh_batches bs db) inv.evolves;
}

pub add_id_self : (a : String) (ids : List String) → listed (add_id a ids) a ≡ true
unfolding add_id
add_id_self a ids = elim (Bool-cases (listed ids a)) [
  | inl e ↦ rw e e
  | inr e ↦ rw (e, ==_self a) refl
]

pub add_id-keeps :
    (a x : String) (ids : List String) → listed ids x ≡ true → listed (add_id a ids) x ≡ true
unfolding add_id
add_id-keeps a x ids h = elim (Bool-cases (listed ids a)) [
  | inl e ↦ rw e h
  | inr e ↦ rw (e, h) (ground arith)
]

-- Every row's batch is among those that the set comprehension gathers.
pub batch_ids-listed :
    (rows : List Request) → All (λ r. listed (batch_ids rows) r.batch_id ≡ true) rows
unfolding batch_ids
batch_ids-listed [] = tt
batch_ids-listed (r ∷ rs) = (
  add_id_self r.batch_id (batch_ids rs),
  All-map (λ x. listed (batch_ids rs) x.batch_id ≡ true) _ rs
      (λ x h. add_id-keeps r.batch_id x.batch_id (batch_ids rs) h) (batch_ids-listed rs),
)

-- Each is listed.
pub listed_each : (bs : List String) → All (λ b. listed bs b ≡ true) bs
listed_each [] = tt
listed_each (b ∷ bs) = (
  rw (==_self b) refl,
  All-map (λ x. listed bs x ≡ true) _ bs (λ x h. ground (arith, h)) (listed_each bs),
)

-- What is listed with one more is listed, and so is the one.
pub add_id-listed :
    (cs : List String) (b : String) (bs : List String)
    → All (λ x. listed cs x ≡ true) (add_id b bs)
    → (listed cs b ≡ true) × All (λ x. listed cs x ≡ true) bs
unfolding add_id
add_id-listed cs b bs h = elim (Bool-cases (listed bs b)) [
  | inl e ↦ let all = rw e at h in (member b bs e all, all)
  | inr e ↦ rw e at h
]
  where
    member :
        (x : String) (xs : List String)
        → listed xs x ≡ true
        → All (λ y. listed cs y ≡ true) xs
        → listed cs x ≡ true
    member x [] e k = cc e
    member x (y ∷ ys) e k = elim (Bool-cases (x == y)) [
      | inl q ↦ subst (λ z. listed cs z ≡ true) (sym ((eq_iff x y).0 q)) k.0
      | inr q ↦ member x ys (ground (arith, e, q)) k.1
    ]
