-- ===== src/Queue/Frame.antt =====
-- The statements that leave `requests` and `batches` alone.
use ds4_on_spark.Prelude.{
  Bool, true, ◌∷◌, ==_self, string-Eq, ℕ, ◌≡◌, refl, sym, ◌∙◌, subst, String, Option, none, some,
  [], inl, inr, Bool-cases, ◌==◌, nat-Eq,
}
use ds4_on_spark.Json.{Json}
use ds4_on_spark.Queue.Tables.{State, Request, Db, non_empty}
use ds4_on_spark.Queue.Batches.{
  listed, update_requests, refresh_batches, refresh_batch, event, write_notice, delete_request_kv,
}
use ds4_on_spark.Queue.Leases.{users, release_id, release_unused_compute_lease}
use ds4_on_spark.Queue.Finish.{idle_if_keyed}
use ds4_on_spark.Queue.Rows.{Evolves, Evolves-refl, Evolves-update_one, Moves, Fixes}
use ds4_on_spark.Queue.Valid.{
  IsValid, IsSound, IsSettledBut, IsValid-refresh_batches, IsSettledBut-update_one,
  IsSettledBut-weaken,
}

-- Two databases that agree on what the invariant reads.
pub record SameTables (a b : Db) : Type 0 where
  pub requests : a.requests ≡ b.requests
  pub batches : a.batches ≡ b.batches

pub SameTables-refl : (a : Db) → SameTables a a
SameTables-refl a = record { requests = refl; batches = refl }

pub SameTables-trans : {a b c : Db} → SameTables a b → SameTables b c → SameTables a c
SameTables-trans h k = record {
  requests = h.requests ∙ k.requests;
  batches = h.batches ∙ k.batches;
}

pub SameTables-refresh_batch :
    (bid : String) {a b : Db}
    → SameTables a b
    → SameTables (refresh_batch bid a) (refresh_batch bid b)
unfolding refresh_batch
SameTables-refresh_batch bid h = record {
  requests = h.requests;
  batches = rw (h.requests, h.batches) refl;
}

pub SameTables-event :
    (rid type : String) (s : State) (payload : Json) (db : Db)
    → SameTables (event rid type s payload db) db
unfolding event
SameTables-event rid type s payload db = record { requests = refl; batches = refl }

pub SameTables-write_notice :
    (rid : String) (s : State) (result : Json) (db : Db)
    → SameTables (write_notice rid s result db) db
unfolding write_notice
SameTables-write_notice rid s result db = record { requests = refl; batches = refl }

pub SameTables-delete_request_kv :
    (rid : String) (db : Db) → SameTables (delete_request_kv rid db) db
unfolding delete_request_kv
SameTables-delete_request_kv rid db = record { requests = refl; batches = refl }

pub SameTables-idle :
    (key : Option String) (rid : String) (now : ℕ) (db : Db)
    → SameTables (idle_if_keyed key rid now db) db
unfolding idle_if_keyed
SameTables-idle none rid now db = record { requests = refl; batches = refl }
SameTables-idle (some k) rid now db = record { requests = refl; batches = refl }

SameTables-release_id : (id : Option String) (db : Db) → SameTables (release_id id db) db
unfolding release_id
SameTables-release_id none db = SameTables-refl db
SameTables-release_id (some id) db = elim (Bool-cases (users db.requests id == 0)) [
  | inl e ↦ record { requests = rw e refl; batches = rw e refl }
  | inr e ↦ record { requests = rw e refl; batches = rw e refl }
]

pub SameTables-release :
    (id : Option String) (db : Db) → SameTables (release_unused_compute_lease id db) db
unfolding release_unused_compute_lease
SameTables-release id db = SameTables-release_id (non_empty id) db

pub IsValid-same : {a b : Db} → SameTables a b → IsValid b → IsValid a
IsValid-same {a} {b} h v =
    subst (λ rs. IsSettledBut [] rs a.batches) (sym h.requests)
      (subst (λ bs. IsSettledBut [] b.requests bs) (sym h.batches) v)

listed_self : (b : String) → listed (b ∷ []) b ≡ true
listed_self b = rw ==_self refl

-- What a method promises: the tables stay valid, and every row moves as rows may.
pub record Keeps (a b : Db) : Type 0 where
  pub valid : IsValid b
  pub evolves : Evolves a.requests b.requests

pub Keeps-refl : (a : Db) → IsValid a → Keeps a a
Keeps-refl a v = record { valid = v; evolves = Evolves-refl a.requests }

-- One row is changed, and its batch is counted anew.
module _ (row : Request) (p : Request → Bool) (f : Request → Request)
    (only : (r : Request) → p r ≡ true → r.request_id ≡ row.request_id) where
  pub Keeps-one :
      (a b : Db)
      → SameTables b (refresh_batch row.batch_id (update_requests p f a))
      → ((r : Request) → (f r).request_id ≡ r.request_id)
      → Moves row (f row)
      → (IsSound row → IsSound (f row))
      → Fixes a.requests row
      → IsValid a
      → Keeps a b
  unfolding refresh_batch
  Keeps-one a b same keep moves sound fix v = record {
    valid = IsValid-same same (
        unfold refresh_batches in
        IsValid-refresh_batches (row.batch_id ∷ []) (update_requests p f a) (
          IsSettledBut-update_one row p f only (row.batch_id ∷ []) a.requests a.batches keep
            moves.same_batch (listed_self row.batch_id) sound fix
            (IsSettledBut-weaken [] (row.batch_id ∷ []) a.requests a.batches (λ b _. refl) v)));
    evolves = rw same.requests (Evolves-update_one row p f only a.requests fix moves);
  }
