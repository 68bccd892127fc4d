-- ===== src/Queue/Leases/Domains.antt =====
-- `_acquire_compute_lease`: one lease for each compute domain.
use ds4_on_spark.Prelude.{
  ℕ, ◌≡◌, ◌≢◌, sym, String, Bool, ◌&&◌, Option, none, some, List, [], ◌∷◌, ◌++◌, All, All-append,
  head?, leb, inl, inr, Bool-cases, Option-cases, eq_iff, ◌==◌, string-Eq,
}
use ds4_on_spark.Sql.{select, update, delete}
use ds4_on_spark.Sql.Laws.{All-delete}
use ds4_on_spark.Queue.Tables.{Request, ComputeLease, Db, or_empty, non_empty}
use ds4_on_spark.Queue.ResultError.{Env}
use ds4_on_spark.Queue.Leases.{should_drain, extended, acquire_from, acquire_compute_lease}

-- No two leases are on the same domain.
abbrev pub OnePerDomain : List ComputeLease → Type 0
OnePerDomain [] = Unit
OnePerDomain (l ∷ ls) = All (λ m. m.compute_domain ≢ l.compute_domain) ls × OnePerDomain ls

OnePerDomain-delete :
    (p : ComputeLease → Bool) (ls : List ComputeLease)
    → OnePerDomain ls
    → OnePerDomain (delete p ls)
OnePerDomain-delete p [] h = tt
OnePerDomain-delete p (l ∷ ls) h = elim (Bool-cases (p l)) [
  | inl e ↦ rw e (OnePerDomain-delete p ls h.1)
  | inr e ↦
      rw e (
        All-delete (λ m. m.compute_domain ≢ l.compute_domain) p ls h.0,
        OnePerDomain-delete p ls h.1,
      )
]

OnePerDomain-update :
    (p : ComputeLease → Bool) (now ttl n : ℕ) (ls : List ComputeLease)
    → OnePerDomain ls
    → OnePerDomain (update p (extended now ttl n) ls)
OnePerDomain-update p now ttl n [] h = tt
OnePerDomain-update p now ttl n (l ∷ ls) h = elim (Bool-cases (p l)) [
  | inl e ↦ rw e (others l.compute_domain ls h.0, OnePerDomain-update p now ttl n ls h.1)
  | inr e ↦ rw e (others l.compute_domain ls h.0, OnePerDomain-update p now ttl n ls h.1)
]
  where
    others :
        (d : String) (ms : List ComputeLease)
        → All (λ m. m.compute_domain ≢ d) ms
        → All (λ m. m.compute_domain ≢ d) (update p (extended now ttl n) ms)
    others d [] k = tt
    others d (m ∷ ms) k = elim (Bool-cases (p m)) [
      | inl e ↦ rw e (k.0, others d ms k.1)
      | inr e ↦ rw e (k.0, others d ms k.1)
    ]

OnePerDomain-append :
    (m : ComputeLease) (ls : List ComputeLease)
    → head? (select (λ l. l.compute_domain == m.compute_domain) ls) ≡ none
    → OnePerDomain ls
    → OnePerDomain (ls ++ m ∷ [])
OnePerDomain-append m [] e h = (tt, tt)
OnePerDomain-append m (l ∷ ls) e h = elim (Bool-cases (l.compute_domain == m.compute_domain)) [
  | inl same ↦ cc (rw same at e)
  | inr other ↦ (
    All-append (λ k. k.compute_domain ≢ l.compute_domain) ls (m ∷ []) h.0
        ((λ q. cc (other, (eq_iff l.compute_domain m.compute_domain).1 (sym q))), tt),
    OnePerDomain-append m ls (rw other at e) h.1,
  )
]

acquire_from-OnePerDomain :
    (env : Env) (domain : String) (service_id : Option String) (leased_by : String) (ttl now n : ℕ)
    (l : ComputeLease) (db : Db)
    → OnePerDomain db.compute_leases
    → OnePerDomain
        (acquire_from env domain service_id leased_by ttl now n (some l) db).1.compute_leases
unfolding acquire_from
acquire_from-OnePerDomain env domain service_id leased_by ttl now n l db h =
    elim (Bool-cases (or_empty l.service_id == or_empty service_id && l.leased_by == leased_by)) [
      | inr e ↦ rw e h
      | inl e ↦ rw e (elim (Bool-cases (should_drain env db l now)) [
        | inl d ↦ rw d h
        | inr d ↦ rw d (OnePerDomain-update _ now ttl n db.compute_leases h)
      ])
    ]

-- Where no two compute leases are on one domain, none are after `_acquire_compute_lease`, whatever it
-- answers.
pub acquire_compute_lease-OnePerDomain :
    (env : Env) (first : Request) (n : ℕ) (leased_by : String) (ttl now : ℕ) (db : Db)
    → OnePerDomain db.compute_leases
    → OnePerDomain (acquire_compute_lease env first n leased_by ttl now db).1.compute_leases
unfolding acquire_compute_lease
acquire_compute_lease-OnePerDomain env first n leased_by ttl now db h =
    let domain = or_empty first.selected_compute_domain in
    let ls = delete (λ l. leb l.lease_expires_at now) db.compute_leases in
    let live = record db { compute_leases = ls } in
    let kept = OnePerDomain-delete (λ l. leb l.lease_expires_at now) db.compute_leases h in
    elim (Bool-cases (domain == "")) [
      | inl e ↦ rw e h
      | inr e ↦ rw e (elim (Option-cases (head? (select (λ l. l.compute_domain == domain) ls))) [
        | inl free ↦ rw free (unfold acquire_from in OnePerDomain-append _ ls free kept)
        | inr (l, taken) ↦ rw taken (
            acquire_from-OnePerDomain env domain (non_empty first.selected_service_id) leased_by ttl
              now n l live kept)
      ])
    ]
