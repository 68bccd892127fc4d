-- ===== src/Profiles/Unambiguous.antt =====
-- profiles.py: what `get` answers for an alias.
use ds4_on_spark.Prelude.{
  String, Bool, true, false, ◌||◌, Option, none, some, List, [], ◌∷◌, All, All-append, ◌==◌,
  string-Eq, ==_self, ne_of-==, ◌≢◌, ◌⊎◌, map, ◌≡◌, refl, ap, subst, inl, inr, Bool-cases,
  Option-cases, arith, ok, value_error, if◌then◌else◌, eq_iff, >>-eq-ok, ok_injective,
}
use ds4_on_spark.Profiles.{
  ModelProfile, Aliases, elem, find_alias, drop_alias, add_alias, add_aliases, alias_pairs,
  registry, ProfileRegistry, profile_aliases, get_profile, find_profile,
}

-- Whether the table knows of the pair: as a profile's own name, as an ambiguous alias, or as the alias
-- of a profile with the same id.
abbrev known_as : Option ModelProfile → ModelProfile → Bool
known_as none q = false
known_as (some p) q = p.profile_id == q.profile_id

accounted : Aliases → String × ModelProfile → Bool
accounted st (a, q) =
    a == q.profile_id || (elem a st.ambiguous || known_as (find_alias a st.by_alias) q)

find-drop_other :
    (a b : String) (l : List (String × ModelProfile))
    → (a == b) ≡ false
    → find_alias b (drop_alias a l) ≡ find_alias b l
find-drop_other a b [] h = refl
find-drop_other a b ((c, p) ∷ rest) h = elim (Bool-cases (c == a)) [
  | inl dropped ↦
      let same_text : c ≡ a = (eq_iff c a).0 dropped in
      let other : (c == b) ≡ false = rw same_text h in
      rw (dropped, other) (find-drop_other a b rest h)
  | inr kept ↦ rw kept (ap (λ o. if c == b then some p else o) (find-drop_other a b rest h))
]

-- What is accounted for stays so.
add_alias-keeps :
    (st : Aliases) (x y : String × ModelProfile)
    → accounted st y ≡ true
    → accounted (add_alias st x) y ≡ true
unfolding add_alias accounted
add_alias-keeps st (a, p) (b, q) h = elim (Bool-cases (a == p.profile_id || elem a st.ambiguous)) [
  | inl skipped ↦ rw skipped h
  | inr fresh ↦ elim (Option-cases (find_alias a st.by_alias)) [
    | inl missing ↦ elim (Bool-cases (a == b)) [
      | inl same_alias ↦
          let missing_b : find_alias b st.by_alias ≡ none =
            subst (λ c. find_alias c st.by_alias ≡ none) ((eq_iff a b).0 same_alias) missing in
          rw (fresh, missing, same_alias) (ground (arith, rw missing_b at h))
      | inr other ↦ rw (fresh, missing, other) h
    ]
    | inr (previous, found) ↦ elim (Bool-cases (previous.profile_id == p.profile_id)) [
      | inl agrees ↦ rw (fresh, found, agrees) h
      | inr differs ↦ elim (Bool-cases (a == b)) [
        | inl same_alias ↦ rw (fresh, found, differs, same_alias) (ground arith)
        | inr other ↦ rw (fresh, found, differs, other, find-drop_other a b st.by_alias other) h
      ]
    ]
  ]
]

add_alias_accounts :
    (st : Aliases) (x : String × ModelProfile) → accounted (add_alias st x) x ≡ true
unfolding add_alias accounted
add_alias_accounts st (a, p) = elim (Bool-cases (a == p.profile_id || elem a st.ambiguous)) [
  | inl skipped ↦ rw skipped (ground (arith, skipped))
  | inr fresh ↦ elim (Option-cases (find_alias a st.by_alias)) [
    | inl missing ↦ rw (fresh, missing, ==_self a, ==_self p.profile_id) (ground arith)
    | inr (previous, found) ↦ elim (Bool-cases (previous.profile_id == p.profile_id)) [
      | inl agrees ↦ rw (fresh, found, agrees, found, agrees) (ground arith)
      | inr differs ↦ rw (fresh, found, differs, ==_self a) (ground arith)
    ]
  ]
]

add_aliases-keeps :
    (st : Aliases) (xs : List (String × ModelProfile)) (y : String × ModelProfile)
    → accounted st y ≡ true
    → accounted (add_aliases st xs) y ≡ true
unfolding add_aliases
add_aliases-keeps st [] y h = h
add_aliases-keeps st (x ∷ xs) y h =
    add_aliases-keeps (add_alias st x) xs y (add_alias-keeps st x y h)

add_aliases_account :
    (st : Aliases) (xs : List (String × ModelProfile))
    → All (λ x. accounted (add_aliases st xs) x ≡ true) xs
unfolding add_aliases
add_aliases_account st [] = tt
add_aliases_account st (x ∷ xs) = (
  add_aliases-keeps (add_alias st x) xs x (add_alias_accounts st x),
  add_aliases_account (add_alias st x) xs,
)

by_alias_only :
    (r : ProfileRegistry) (id : String) (p : ModelProfile)
    → find_profile id r.profiles ≡ none
    → get_profile r id ≡ ok p
    → (elem id r.aliases.ambiguous ≡ false) × (find_alias id r.aliases.by_alias ≡ some p)
unfolding get_profile
by_alias_only r id p missing answered = elim (Bool-cases (elem id r.aliases.ambiguous)) [
  | inl unclear ↦
      let refused : get_profile r id ≡ value_error "ambiguous model profile alias" =
        rw (get_profile, missing, unclear) refl in
      cc (refused, answered)
  | inr clear ↦ elim (Option-cases (find_alias id r.aliases.by_alias)) [
    | inl absent ↦
        let refused : get_profile r id ≡ value_error "unknown model profile" =
          rw (get_profile, missing, clear, absent) refl in
        cc (refused, answered)
    | inr (q, found) ↦
        let given : get_profile r id ≡ ok q = rw (get_profile, missing, clear, found) refl in
        let same_profile : q ≡ p = ok_injective (cc (given, answered)) in
        (clear, cc (found, same_profile))
  ]
]

All-pairs :
    (id : String) (profiles : List ModelProfile)
    → find_profile id profiles ≡ none
    → All (λ (x : String × ModelProfile). (x.1.profile_id == id) ≡ false) (alias_pairs profiles)
unfolding alias_pairs
All-pairs id [] h = tt
All-pairs id (p ∷ rest) h =
    let other : (p.profile_id == id) ≡ false = ground (arith, h) in
    All-append _ (map (λ a. (a, p)) (profile_aliases p)) (alias_pairs rest)
      (each (profile_aliases p) other) (All-pairs id rest (rw other at h))
  where
    each :
        (names : List String)
        → (p.profile_id == id) ≡ false
        → All
            (λ (x : String × ModelProfile). (x.1.profile_id == id) ≡ false)
            (map (λ a. (a, p)) names)
    each [] e = tt
    each (a ∷ names) e = (e, each names e)

All-both :
    (st : Aliases) (id : String) (p : ModelProfile) (xs : List (String × ModelProfile))
    → elem id st.ambiguous ≡ false
    → find_alias id st.by_alias ≡ some p
    → All (λ x. accounted st x ≡ true) xs
    → All (λ (x : String × ModelProfile). (x.1.profile_id == id) ≡ false) xs
    → All (λ (x : String × ModelProfile). (x.0 ≢ id) ⊎ (p.profile_id ≡ x.1.profile_id)) xs
unfolding accounted
All-both st id p [] clear found h k = tt
All-both st id p ((a, q) ∷ xs) clear found h k = (
  elim (Bool-cases (a == id)) [
    | inr other ↦ inl (ne_of-== a id other)
    | inl same_alias ↦
        let same_text : a ≡ id = (eq_iff a id).0 same_alias in
        let at_id : accounted st (id, q) ≡ true =
          subst (λ b. accounted st (b, q) ≡ true) same_text h.0 in
        let own : (id == q.profile_id) ≡ false =
          grind (arith, k.0, eq_iff id q.profile_id, eq_iff q.profile_id id) in
        inr ((eq_iff p.profile_id q.profile_id).0 (rw (own, clear, found) at at_id))
  ],
  All-both st id p xs clear found h.1 k.1,
)

-- An id that is no profile's own is answered, as an alias, only where every profile that carries the
-- alias has the id of the one that is answered.
pub get_profile-unambiguous :
    (profiles : List ModelProfile) (r : ProfileRegistry) (id : String) (p : ModelProfile)
    → registry profiles ≡ ok r
    → find_profile id profiles ≡ none
    → get_profile r id ≡ ok p
    → All (λ x. (x.0 ≢ id) ⊎ (p.profile_id ≡ x.1.profile_id)) (alias_pairs profiles)
unfolding registry get_profile
get_profile-unambiguous profiles r id p made no_id answered =
    let (_, kept) = >>-eq-ok _ _ made in
    let empty : Aliases = record { by_alias = []; ambiguous = [] } in
    let made_of : ProfileRegistry = record {
      profiles = profiles;
      aliases = add_aliases empty (alias_pairs profiles);
    } in
    let whole : made_of ≡ r = ok_injective kept in
    let missing : find_profile id r.profiles ≡ none =
      subst (λ (t : ProfileRegistry). find_profile id t.profiles ≡ none) whole no_id in
    let (clear, found) = by_alias_only r id p missing answered in
    All-both r.aliases id p (alias_pairs profiles) clear found
      (subst
        (λ (t : ProfileRegistry). All (λ x. accounted t.aliases x ≡ true) (alias_pairs profiles))
        whole (add_aliases_account empty (alias_pairs profiles)))
      (All-pairs id profiles no_id)
