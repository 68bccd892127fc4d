-- ===== src/Queue/Submit/Filling.antt =====
-- What the insert statements of a submission keep of the tables.
use ds4_on_spark.Prelude.{
  ◌≡◌, ◌≢◌, refl, sym, ◌∙◌, subst, String, false, List, [], ◌∷◌, ◌++◌, All, All-append, any, inl,
  inr, Bool-cases, arith, eq_iff, ==_self, ◌==◌, string-Eq, nat-Eq, ok, >>=-eq-ok,
}
use ds4_on_spark.Json.{Json}
use ds4_on_spark.Queue.Tables.{State, State-Eq, Request, Batch, Db}
use ds4_on_spark.Queue.Batches.{listed, counts, refreshed, refresh_batch, refresh_batches, event}
use ds4_on_spark.Queue.Rows.{IsKeyed, Evolves, Evolves-refl, Evolves-trans, Evolves-append}
use ds4_on_spark.Queue.Valid.{
  IsValid, IsSound, IsSettledBut, CountedBut, IsSettledBut-weaken, IsValid-refresh_batches,
  refreshed_ext,
}
use ds4_on_spark.Queue.Frame.{Keeps}
use ds4_on_spark.Queue.Submit.Insert.{new_batch, insert_batch, insert_request, submit_row}

-- The table so far: all is settled but the batch that is being filled.
pub record Filling (bid : String) (start db : Db) : Type 0 where
  pub settled : IsSettledBut (bid ∷ []) db.requests db.batches
  pub evolves : Evolves start.requests db.requests

no_other :
    (id : String) (rs : List Request)
    → any (λ r. r.request_id == id) rs ≡ false
    → All (λ r. r.request_id ≢ id) rs
no_other id [] h = tt
no_other id (r ∷ rs) h = elim (Bool-cases (r.request_id == id)) [
  | inl e ↦ absurd (ground (arith, h, e))
  | inr e ↦
      ((λ same. cc (e, (eq_iff r.request_id id).1 same)), no_other id rs (ground (arith, h, e)))
]

IsKeyed-append :
    (row : Request) (rs : List Request)
    → All (λ r. r.request_id ≢ row.request_id) rs
    → IsKeyed rs
    → IsKeyed (rs ++ row ∷ [])
IsKeyed-append row [] ne h = (tt, tt)
IsKeyed-append row (r ∷ rs) ne h = (
  All-append (λ s. s.request_id ≢ r.request_id) rs (row ∷ []) h.0 ((λ e. ne.0 (sym e)), tt),
  IsKeyed-append row rs ne.1 h.1,
)

counts-append :
    (row : Request) (bid : String) (s : State) (rs : List Request)
    → (row.batch_id == bid) ≡ false
    → counts rs bid s ≡ counts (rs ++ row ∷ []) bid s
unfolding counts
counts-append row bid s [] h = rw h refl
counts-append row bid s (r ∷ rs) h = omega (arith, counts-append row bid s rs h)

CountedBut-insert :
    (bid : String) (row : Request) (rs : List Request)
    → row.batch_id ≡ bid
    → (batches : List Batch) → CountedBut (bid ∷ []) rs batches
    → CountedBut (bid ∷ []) (rs ++ row ∷ []) batches
CountedBut-insert bid row rs same [] h = tt
CountedBut-insert bid row rs same (b ∷ batches) h = (
  (λ out.
      sym (
        refreshed_ext rs (rs ++ row ∷ []) b λ s.
          counts-append row b.batch_id s rs (elim (Bool-cases (row.batch_id == b.batch_id)) [
            | inl e ↦
                let q : b.batch_id ≡ bid = sym ((eq_iff row.batch_id b.batch_id).0 e) ∙ same in
                absurd (ground (arith, subst (λ x. listed (bid ∷ []) x ≡ false) q out, ==_self bid))
            | inr e ↦ e
          ]))
      ∙ h.0 out),
  CountedBut-insert bid row rs same batches h.1,
)

insert_request-Filling :
    (bid : String) (row : Request) (start db db' : Db)
    → row.batch_id ≡ bid
    → IsSound row
    → insert_request row db ≡ ok db'
    → Filling bid start db
    → Filling bid start db'
unfolding insert_request
insert_request-Filling bid row start db db' same sound h fill =
    elim (Bool-cases (any (λ r. r.request_id == row.request_id) db.requests)) [
      | inl e ↦ cc (rw e at h)
      | inr e ↦
          let stored : record db { requests = db.requests ++ row ∷ [] } ≡ db' = cc (rw e at h) in
          subst (Filling bid start) stored (record {
            settled = record {
              keyed =
                  IsKeyed-append row db.requests (no_other row.request_id db.requests e)
                    fill.settled.keyed;
              sound = All-append IsSound db.requests (row ∷ []) fill.settled.sound (sound, tt);
              counted = CountedBut-insert bid row db.requests same db.batches fill.settled.counted;
            };
            evolves =
                Evolves-trans start.requests db.requests (db.requests ++ row ∷ []) fill.evolves
                  (Evolves-append db.requests (row ∷ []));
          })
    ]

pub submit_row-Filling :
    (bid : String) (row : Request) (payload : Json) (start db db' : Db)
    → row.batch_id ≡ bid
    → IsSound row
    → submit_row row payload db ≡ ok db'
    → Filling bid start db
    → Filling bid start db'
unfolding submit_row
submit_row-Filling bid row payload start db db' same sound h fill =
    let (db1, inserted, rest) = >>=-eq-ok (insert_request row db) _ h in
    let one = insert_request-Filling bid row start db db1 same sound inserted fill in
    let last : event row.request_id "submitted" row.state payload db1 ≡ db' = cc rest in
    subst (Filling bid start) last
      (unfold event in record { settled = one.settled; evolves = one.evolves })

pub insert_batch-Filling :
    (bid : String) (db db' : Db) → insert_batch bid db ≡ ok db' → IsValid db → Filling bid db db'
unfolding insert_batch
insert_batch-Filling bid db db' h v = elim (Bool-cases (any (λ b. b.batch_id == bid) db.batches)) [
  | inl e ↦ cc (rw e at h)
  | inr e ↦
      let stored : record db { batches = db.batches ++ new_batch bid ∷ [] } ≡ db' =
        cc (rw e at h) in
      let old = IsSettledBut-weaken [] (bid ∷ []) db.requests db.batches (λ b _. refl) v in
      subst (Filling bid db) stored (record {
        settled = record {
          keyed = old.keyed;
          sound = old.sound;
          counted =
              All-append (λ b. listed (bid ∷ []) b.batch_id ≡ false → refreshed db.requests b ≡ b)
                db.batches (new_batch bid ∷ []) old.counted
                ((λ out. absurd (ground (arith, out, ==_self bid))), tt);
        };
        evolves = Evolves-refl db.requests;
      })
]

pub Filling-end :
    (bid : String) (start db : Db) → Filling bid start db → Keeps start (refresh_batch bid db)
unfolding refresh_batch
Filling-end bid start db fill = record {
  valid = unfold refresh_batches in IsValid-refresh_batches (bid ∷ []) db fill.settled;
  evolves = fill.evolves;
}
