-- ===== src/Queue/Passes.antt =====
-- The loops of `prepare_ready` and `claim_ready_batch`: each pass updates the row of one id if it is
-- still in the state that the query found, and only the batches of updated rows are counted anew.
use ds4_on_spark.Prelude.{
  ◌+◌, ◌≤◌, ◌≡◌, ◌≢◌, refl, sym, ◌∙◌, ap, subst, String, Bool, true, false, List, [], ◌∷◌, All,
  All-map, count, inl, inr, Bool-cases, arith, string-Eq,
}
use ds4_on_spark.Sql.{update}
use ds4_on_spark.Sql.Laws.{All-update}
use ds4_on_spark.Queue.Tables.{Request, Db, terminal}
use ds4_on_spark.Queue.Batches.{listed, update_requests, refresh_batches}
use ds4_on_spark.Queue.Rows.{
  Moves, Evolves, Evolves-refl, Evolves-trans, Evolves-update, IsKeyed, Fixes,
}
use ds4_on_spark.Queue.Valid.{
  IsSound, IsSettledBut, IsSettledBut-update_within, IsSettledBut-update_same, IsSettledBut-weaken,
  IsValid, IsValid-refresh_batches, requests-refresh_batches,
}
use ds4_on_spark.Queue.Frame.{SameTables, Keeps}

-- The table's row of this id is in the batch that was read, and not final.
pub record IsLive (row r : Request) : Type 0 where
  pub same_batch : r.batch_id ≡ row.batch_id
  pub live : terminal r.state ≡ false

abbrev pub Live : List Request → Request → Type 0
Live table row = All (λ r. r.request_id ≡ row.request_id → IsLive row r) table

pub Live-Fixes :
    (table : List Request) (row : Request)
    → terminal row.state ≡ false
    → Fixes table row
    → Live table row
Live-Fixes table row live h =
    All-map (λ r. r.request_id ≡ row.request_id → r ≡ row) _ table
      (λ r same e. subst (IsLive row) (sym (same e)) (record { same_batch = refl; live = live })) h

pub record Passing (bs : List String) (rows : List Request) (start db : Db) : Type 0 where
  pub settled : IsSettledBut bs db.requests db.batches
  pub evolves : Evolves start.requests db.requests
  pub inside : All (Live db.requests) rows

pub Passing-start :
    (bs : List String) (rows : List Request) (db : Db)
    → IsValid db
    → All (Live db.requests) rows
    → Passing bs rows db db
Passing-start bs rows db v live = record {
  settled = IsSettledBut-weaken [] bs db.requests db.batches (λ b _. refl) v;
  evolves = Evolves-refl db.requests;
  inside = live;
}

pub Passing-same :
    {bs : List String} {rows : List Request} {start a b : Db}
    → SameTables b a
    → Passing bs rows start a
    → Passing bs rows start b
Passing-same {bs} {rows} {start} {a} {b} h inv = record {
  settled =
      subst (λ rs. IsSettledBut bs rs b.batches) (sym h.requests)
        (subst (λ xs. IsSettledBut bs a.requests xs) (sym h.batches) inv.settled);
  evolves = rw h.requests inv.evolves;
  inside = rw h.requests inv.inside;
}

pub Passing-tail :
    {bs : List String} {row : Request} {rows : List Request} {start db : Db}
    → Passing bs (row ∷ rows) start db
    → Passing bs rows start db
Passing-tail inv = record { settled = inv.settled; evolves = inv.evolves; inside = inv.inside.1 }

pub record KeepsLive (f : Request → Request) : Type 0 where
  pub keep : (r : Request) → (f r).request_id ≡ r.request_id
  pub batch : (r : Request) → (f r).batch_id ≡ r.batch_id
  pub lives : (r : Request) → terminal r.state ≡ false → terminal (f r).state ≡ false

-- What a pass does to the rows that it reaches.
pub record Changes (id : String) (p : Request → Bool) (f : Request → Request) : Type 0 where
  pub only : (r : Request) → p r ≡ true → r.request_id ≡ id
  pub kept : KeepsLive f
  pub moves : (r : Request) → p r ≡ true → terminal r.state ≡ false → Moves r (f r)
  pub sound : (r : Request) → p r ≡ true → IsSound r → IsSound (f r)

module _ (p : Request → Bool) (f : Request → Request) where
  Live-update :
      KeepsLive f
      → (table rows : List Request) → All (Live table) rows
      → All (Live (update p f table)) rows
  Live-update k table rows h =
      All-map (Live table) _ rows
        (λ row.
          All-update (λ r. r.request_id ≡ row.request_id → IsLive row r) p f table
            (λ r _ old e.
              let was = old (sym (k.keep r) ∙ e) in
              record { same_batch = k.batch r ∙ was.same_batch; live = k.lives r was.live }))
        h

  -- The pass for a row whose batch is listed.
  pub Passing-step :
      {bs : List String} {row : Request} {rows : List Request} {start a : Db}
      → Changes row.request_id p f
      → listed bs row.batch_id ≡ true
      → Passing bs (row ∷ rows) start a
      → Passing bs rows start (update_requests p f a)
  Passing-step {bs} {row} {rows} {start} {a} c ok inv = record {
    settled =
        IsSettledBut-update_within p f bs a.requests a.batches c.kept.keep
          (All-map (λ r. r.request_id ≡ row.request_id → IsLive row r) _ a.requests
            (λ r is e. (c.kept.batch r, ap (listed bs) (is (c.only r e)).same_batch ∙ ok))
            inv.inside.0)
          c.sound inv.settled;
    evolves = Evolves-trans start.requests a.requests (update p f a.requests) inv.evolves (
        Evolves-update p f a.requests (
          All-map (λ r. r.request_id ≡ row.request_id → IsLive row r) _ a.requests
            (λ r is e. c.moves r e (is (c.only r e)).live) inv.inside.0));
    inside = Live-update c.kept a.requests rows inv.inside.1;
  }

  -- A pass that leaves every state alone.
  pub Passing-still :
      {bs : List String} {row : Request} {rows : List Request} {start a : Db}
      → Changes row.request_id p f
      → ((r : Request) → (f r).state ≡ r.state)
      → Passing bs (row ∷ rows) start a
      → Passing bs (row ∷ rows) start (update_requests p f a)
  Passing-still {bs} {row} {rows} {start} {a} c still inv = record {
    settled =
        IsSettledBut-update_same p f bs a.requests a.batches c.kept.keep
          (λ r. (c.kept.batch r, still r)) c.sound inv.settled;
    evolves = Evolves-trans start.requests a.requests (update p f a.requests) inv.evolves (
        Evolves-update p f a.requests (
          All-map (λ r. r.request_id ≡ row.request_id → IsLive row r) _ a.requests
            (λ r is e. c.moves r e (is (c.only r e)).live) inv.inside.0));
    inside = Live-update c.kept a.requests (row ∷ rows) inv.inside;
  }

  update-none : (rs : List Request) → count p rs ≡ 0 → update p f rs ≡ rs
  update-none [] h = refl
  update-none (r ∷ rs) h = elim (Bool-cases (p r)) [
    | inl e ↦ let more : 1 + count p rs ≡ 0 = rw e at h in absurd (omega (arith, more))
    | inr e ↦
        let rest : 0 + count p rs ≡ 0 = rw e at h in
        rw e (ap (λ xs. r ∷ xs) (update-none rs (omega (arith, rest))))
  ]

  -- A pass that finds no row.
  pub Passing-none :
      {bs : List String} {row : Request} {rows : List Request} {start a : Db}
      → count p a.requests ≡ 0
      → Passing bs (row ∷ rows) start a
      → Passing bs rows start (update_requests p f a)
  Passing-none {bs} {row} {rows} {start} {a} none inv =
      Passing-same (record { requests = update-none a.requests none; batches = refl })
        (Passing-tail inv)

-- At most one row has an id.
module _ (id : String) (p : Request → Bool)
    (only : (r : Request) → p r ≡ true → r.request_id ≡ id) where
  count-other : (rs : List Request) → All (λ s. s.request_id ≢ id) rs → count p rs ≡ 0
  count-other [] h = refl
  count-other (r ∷ rs) h = elim (Bool-cases (p r)) [
    | inl e ↦ absurd (h.0 (only r e))
    | inr e ↦ rw (e, count-other rs h.1) (omega arith)
  ]

  pub count-IsKeyed : (rs : List Request) → IsKeyed rs → count p rs ≤ 1
  count-IsKeyed [] h = omega arith
  count-IsKeyed (r ∷ rs) h = elim (Bool-cases (p r)) [
    | inl e ↦
        let none = count-other rs (subst (λ i. All (λ s. s.request_id ≢ i) rs) (only r e) h.0) in
        rw (e, none) (omega arith)
    | inr e ↦ let rest = count-IsKeyed rs h.1 in rw e (omega (arith, rest))
  ]

-- The end of the loop.
pub Keeps-Passing :
    {bs : List String} {rows : List Request} {start db : Db}
    → Passing bs rows start db
    → Keeps start (refresh_batches bs db)
Keeps-Passing {bs} {rows} {start} {db} inv = record {
  valid = IsValid-refresh_batches bs db inv.settled;
  evolves = rw (requests-refresh_batches bs db) inv.evolves;
}
