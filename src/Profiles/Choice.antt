-- ===== src/Profiles/Choice.antt =====
-- profiles.py: what `resolve` answers for a capability.
use ds4_on_spark.Prelude.{
  String, Bool, true, none, some, List, [], ◌∷◌, All, length, head?, ◌==◌, nat-Eq, string-Eq, ◌≡◌,
  refl, subst, ◌⊎◌, inl, inr, Bool-cases, arith, ok, if◌then◌else◌, >>-eq-ok, raise_if,
  ok_injective, In, All-In_own,
}
use ds4_on_spark.Sql.{select, order_by}
use ds4_on_spark.Sql.Laws.{All-select, All-select_self, All-order_by}
use ds4_on_spark.Profiles.{
  ModelProfile, ProfileRegistry, Numbers, elem, may_serve, ranked_before, or_raise, resolve,
}

In-candidates :
    (capability job_class : String) (chat : Bool) (profiles : List ModelProfile)
    → All
        (λ p. (may_serve capability chat job_class p ≡ true) × In p profiles)
        (select (may_serve capability chat job_class) profiles)
In-candidates capability job_class chat profiles =
    All-both (select (may_serve capability chat job_class) profiles)
      (All-select_self (may_serve capability chat job_class) profiles)
      (All-select (λ p. In p profiles) (may_serve capability chat job_class) profiles
        (All-In_own profiles))
  where
    All-both :
        (xs : List ModelProfile)
        → All (λ p. may_serve capability chat job_class p ≡ true) xs
        → All (λ p. In p profiles) xs
        → All (λ p. (may_serve capability chat job_class p ≡ true) × In p profiles) xs
    All-both [] h k = tt
    All-both (x ∷ xs) h k = ((h.0, k.0), All-both xs h.1 k.1)

All-head :
    (P : ModelProfile → Type 0) (message : String) (xs : List ModelProfile) (p : ModelProfile)
    → All P xs
    → or_raise message (head? xs) ≡ ok p
    → P p
All-head P message [] p h e = cc e
All-head P message (x ∷ xs) p h e = subst P (ok_injective e) h.0

empty_length : (xs : List ModelProfile) → (length xs == 0) ≡ true → xs ≡ []
empty_length [] h = refl
empty_length (x ∷ xs) h = ground (arith, h)

-- A profile that is resolved from a capability is one of the registry's, is eligible for production,
-- and supports the capability, the job class and the mode of the request; where one of those that do
-- is a default for the capability, so is the one resolved.
pub resolve-serves :
    (numbers : Numbers) (r : ProfileRegistry) (capability : String) (chat : Bool)
    (job_class : String) (p : ModelProfile)
    → resolve numbers r (some capability) chat job_class none ≡ ok p
    → In p r.profiles
      × (may_serve capability chat job_class p ≡ true)
      × ((elem capability p.default_for ≡ true)
          ⊎ (select
                (λ q. elem capability q.default_for)
                (select (may_serve capability chat job_class) r.profiles)
              ≡ []))
unfolding resolve
resolve-serves numbers r capability chat job_class p answered =
    let candidates = select (may_serve capability chat job_class) r.profiles in
    let defaults = select (λ (q : ModelProfile). elem capability q.default_for) candidates in
    let before = ranked_before numbers in
    let message : String = "no production profile supports the request" in
    let sorted = λ (l : List ModelProfile). or_raise message (head? (order_by before l)) in
    let (_, chosen) =
      >>-eq-ok (raise_if (capability == "") "capability is required when model_pin is not provided")
        (sorted (if length defaults == 0 then candidates else defaults)) answered in
    let serves = In-candidates capability job_class chat r.profiles in
    let Serves : ModelProfile → Type 0 =
      λ q. (may_serve capability chat job_class q ≡ true) × In q r.profiles in
    elim (Bool-cases (length defaults == 0)) [
      | inl none_default ↦
          let first : sorted candidates ≡ ok p = rw none_default at chosen in
          let facts =
            All-head Serves message (order_by before candidates) p
              (All-order_by Serves before candidates serves) first in
          (facts.1, facts.0, inr (empty_length defaults none_default))
      | inr some_default ↦
          let first : sorted defaults ≡ ok p = rw some_default at chosen in
          let facts =
            All-head Serves message (order_by before defaults) p
              (All-order_by Serves before defaults
                (All-select Serves (λ q. elem capability q.default_for) candidates serves))
              first in
          let default =
            All-head (λ q. elem capability q.default_for ≡ true) message (order_by before defaults)
              p
              (All-order_by (λ q. elem capability q.default_for ≡ true) before defaults
                (All-select_self (λ q. elem capability q.default_for) candidates))
              first in
          (facts.1, facts.0, inl default)
    ]
