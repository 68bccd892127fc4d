-- ===== src/Queue/Valid.antt =====
-- The invariant of the queue's tables, and the rules by which the methods keep it.
use ds4_on_spark.Prelude.{
  ◌≡◌, refl, sym, ◌∙◌, ap, subst, String, Bool, true, false, not, ◌&&◌, ◌||◌, Option, none, some,
  List, [], ◌∷◌, All, All-map, inl, inr, Bool-cases, ◌==◌, string-Eq, eq_iff,
}
use mathlib.Core.Path.{fun_ext}
use ds4_on_spark.Sql.{update}
use ds4_on_spark.Sql.Laws.{count-update, All-update}
use ds4_on_spark.Queue.Tables.{State, State-Eq, Request, Batch, Db, terminal}
use ds4_on_spark.Queue.Batches.{
  listed, counts, batch_row, refreshed, refresh_batch, refresh_batches,
}
use ds4_on_spark.Queue.Rows.{IsKeyed, IsKeyed-update, Fixes, All-update_one, Fixes-reached}

abbrev pub is_some {ℓ} : {A : Type ℓ} → Option A → Bool
is_some none = false
is_some (some a) = true

-- A row holds a lease exactly while it runs, and has a result exactly once it is final.
pub record IsSound (r : Request) : Type 0 where
  pub leased : is_some r.lease_id ≡ r.state == State.running
  pub owned : is_some r.leased_by ≡ r.state == State.running
  pub bounded : is_some r.lease_expires_at ≡ r.state == State.running
  pub beaten : is_some r.heartbeat_at ≡ r.state == State.running
  pub closed : is_some r.completed_at ≡ terminal r.state
  pub answered : is_some r.result_json ≡ terminal r.state
  pub explained : terminal r.state ≡ true → is_some r.error ≡ not (r.state == State.completed)
  pub timed : r.state ≡ State.ready → is_some r.ready_at ≡ true
  pub unshared :
      (r.state == State.queued || r.state == State.ready) ≡ true → r.compute_lease_id ≡ none

-- Every row of `batches` that is not listed has the counts and the state of its requests.
abbrev pub CountedBut : List String → List Request → List Batch → Type 0
CountedBut bs rs batches = All (λ b. listed bs b.batch_id ≡ false → refreshed rs b ≡ b) batches

pub record IsSettledBut (bs : List String) (rs : List Request) (batches : List Batch) : Type 0 where
  pub keyed : IsKeyed rs
  pub sound : All IsSound rs
  pub counted : CountedBut bs rs batches

abbrev pub IsValid : Db → Type 0
IsValid db = IsSettledBut [] db.requests db.batches

-- The batch's row depends on the requests through the counts alone.
pub refreshed_ext :
    (rs ss : List Request) (b : Batch)
    → ((s : State) → counts rs b.batch_id s ≡ counts ss b.batch_id s)
    → refreshed rs b ≡ refreshed ss b
unfolding refreshed
refreshed_ext rs ss b h = ap (batch_row b.batch_id) (fun_ext h)

module _ (rs : List Request) (bs : List String) where
  -- Refreshing a batch takes it off the list.
  CountedBut-refresh :
      (b : String) (batches : List Batch)
      → CountedBut (b ∷ bs) rs batches
      → CountedBut bs rs (update (λ x. x.batch_id == b) (refreshed rs) batches)
  CountedBut-refresh b [] h = tt
  CountedBut-refresh b (x ∷ xs) h = elim (Bool-cases (x.batch_id == b)) [
    | inl e ↦ rw e ((λ _. unfold refreshed batch_row in refl), CountedBut-refresh b xs h.1)
    | inr e ↦ rw e ((λ out. h.0 (rw e out)), CountedBut-refresh b xs h.1)
  ]

pub IsValid-refresh_batches :
    (bs : List String) (db : Db)
    → IsSettledBut bs db.requests db.batches
    → IsValid (refresh_batches bs db)
unfolding refresh_batches
IsValid-refresh_batches [] db h = h
IsValid-refresh_batches (b ∷ bs) db h = IsValid-refresh_batches bs (refresh_batch b db) (record {
  keyed = h.keyed;
  sound = h.sound;
  counted = CountedBut-refresh db.requests bs b db.batches h.counted;
})

pub requests-refresh_batches :
    (bs : List String) (db : Db) → (refresh_batches bs db).requests ≡ db.requests
unfolding refresh_batches
requests-refresh_batches [] db = refl
requests-refresh_batches (b ∷ bs) db = requests-refresh_batches bs (refresh_batch b db)

-- An update leaves the counts of a batch alone that none of its rows is in.
counts-update :
    (p : Request → Bool) (f : Request → Request) (bid : String) (s : State) (rs : List Request)
    → All
        (λ r.
          p r ≡ true
          → ((f r).batch_id == bid && (f r).state == s) ≡ (r.batch_id == bid && r.state == s))
        rs
    → counts rs bid s ≡ counts (update p f rs) bid s
unfolding counts
counts-update p f bid s rs h = sym (count-update (λ r. r.batch_id == bid && r.state == s) p f rs h)

other_batch :
    (bs : List String) (a b : String) → listed bs a ≡ true → listed bs b ≡ false → (a == b) ≡ false
other_batch bs a b h k = elim (Bool-cases (a == b)) [
  | inl e ↦ cc (h, k, (eq_iff a b).0 e)
  | inr e ↦ e
]

module _ (p : Request → Bool) (f : Request → Request) (bs : List String) (rs : List Request) where
  -- The rows that change are in listed batches, and stay there.
  pub CountedBut-update :
      All (λ r. p r ≡ true → ((f r).batch_id ≡ r.batch_id) × (listed bs r.batch_id ≡ true)) rs
      → (batches : List Batch) → CountedBut bs rs batches
      → CountedBut bs (update p f rs) batches
  CountedBut-update h [] c = tt
  CountedBut-update h (b ∷ batches) c = (
    (λ out.
        sym (
          refreshed_ext rs (update p f rs) b λ s. counts-update p f b.batch_id s rs (
            All-map
              (λ r. p r ≡ true → ((f r).batch_id ≡ r.batch_id) × (listed bs r.batch_id ≡ true)) _ rs
              (λ r both e.
                let (same, inside) = both e in
                rw (same, other_batch bs r.batch_id b.batch_id inside out) refl)
              h))
        ∙ c.0 out),
    CountedBut-update h batches c.1,
  )

  -- Nothing that counts changes.
  CountedBut-update_same :
      All (λ r. p r ≡ true → ((f r).batch_id ≡ r.batch_id) × ((f r).state ≡ r.state)) rs
      → (batches : List Batch) → CountedBut bs rs batches
      → CountedBut bs (update p f rs) batches
  CountedBut-update_same h [] c = tt
  CountedBut-update_same h (b ∷ batches) c = (
    (λ out.
        sym (
          refreshed_ext rs (update p f rs) b λ s. counts-update p f b.batch_id s rs (
            All-map (λ r. p r ≡ true → ((f r).batch_id ≡ r.batch_id) × ((f r).state ≡ r.state)) _ rs
              (λ r both e. let (same, still) = both e in rw (same, still) refl) h))
        ∙ c.0 out),
    CountedBut-update_same h batches c.1,
  )

-- A step on the rows that share the read row's id.
module _ (row : Request) (p : Request → Bool) (f : Request → Request)
    (only : (r : Request) → p r ≡ true → r.request_id ≡ row.request_id) where
  pub IsSettledBut-update_one :
      (bs : List String) (rs : List Request) (batches : List Batch)
      → ((r : Request) → (f r).request_id ≡ r.request_id)
      → (f row).batch_id ≡ row.batch_id
      → listed bs row.batch_id ≡ true
      → (IsSound row → IsSound (f row))
      → Fixes rs row
      → IsSettledBut bs rs batches
      → IsSettledBut bs (update p f rs) batches
  IsSettledBut-update_one bs rs batches keep same inside sound fix v = record {
    keyed = IsKeyed-update p f rs keep v.keyed;
    sound = All-update_one row p f only IsSound rs fix sound v.sound;
    counted =
        CountedBut-update p f bs rs
          (All-map (λ r. p r ≡ true → r ≡ row) _ rs
            (λ r is e.
              subst (λ x. ((f x).batch_id ≡ x.batch_id) × (listed bs x.batch_id ≡ true))
                (sym (is e)) (same, inside))
            (Fixes-reached row p f only rs fix))
          batches v.counted;
  }

-- A step on rows of listed batches.
pub IsSettledBut-update_within :
    (p : Request → Bool) (f : Request → Request) (bs : List String) (rs : List Request)
    (batches : List Batch)
    → ((r : Request) → (f r).request_id ≡ r.request_id)
    → All (λ r. p r ≡ true → ((f r).batch_id ≡ r.batch_id) × (listed bs r.batch_id ≡ true)) rs
    → ((r : Request) → p r ≡ true → IsSound r → IsSound (f r))
    → IsSettledBut bs rs batches
    → IsSettledBut bs (update p f rs) batches
IsSettledBut-update_within p f bs rs batches keep inside sound v = record {
  keyed = IsKeyed-update p f rs keep v.keyed;
  sound = All-update IsSound p f rs sound v.sound;
  counted = CountedBut-update p f bs rs inside batches v.counted;
}

-- A step on any rows that keeps their batches and states.
pub IsSettledBut-update_same :
    (p : Request → Bool) (f : Request → Request) (bs : List String) (rs : List Request)
    (batches : List Batch)
    → ((r : Request) → (f r).request_id ≡ r.request_id)
    → ((r : Request) → ((f r).batch_id ≡ r.batch_id) × ((f r).state ≡ r.state))
    → ((r : Request) → p r ≡ true → IsSound r → IsSound (f r))
    → IsSettledBut bs rs batches
    → IsSettledBut bs (update p f rs) batches
IsSettledBut-update_same p f bs rs batches keep same sound v = record {
  keyed = IsKeyed-update p f rs keep v.keyed;
  sound = All-update IsSound p f rs sound v.sound;
  counted =
      CountedBut-update_same p f bs rs (All-map IsSound _ rs (λ r _ _. same r) v.sound) batches
        v.counted;
}

-- More batches may be listed.
pub IsSettledBut-weaken :
    (bs cs : List String) (rs : List Request) (batches : List Batch)
    → ((b : String) → listed cs b ≡ false → listed bs b ≡ false)
    → IsSettledBut bs rs batches
    → IsSettledBut cs rs batches
IsSettledBut-weaken bs cs rs batches sub v = record {
  keyed = v.keyed;
  sound = v.sound;
  counted = weaken batches v.counted;
}
  where
    weaken : (xs : List Batch) → CountedBut bs rs xs → CountedBut cs rs xs
    weaken [] h = tt
    weaken (x ∷ xs) h = ((λ out. h.0 (sub x.batch_id out)), weaken xs h.1)
