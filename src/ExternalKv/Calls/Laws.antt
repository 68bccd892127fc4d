-- ===== src/ExternalKv/Calls/Laws.antt =====
-- queue.py: what declaring, evicting and committing an external KV object do to its rows.
use ds4_on_spark.Prelude.{
  ℕ, ◌≡◌, refl, ap, subst, String, Bool, true, false, some, List, [], ◌∷◌, ◌++◌, map, All, any,
  length, head?, string-Eq, ==_self, inl, inr, Bool-cases, arith, ok, ◌>>◌, >>-eq-ok, ok_injective,
}
use ds4_on_spark.Json.{dict}
use ds4_on_spark.Sql.{select, update, delete}
use ds4_on_spark.ExternalKv.{Object, Store, Key, object_at, shard_at}
use ds4_on_spark.ExternalKv.Manifest.{
  ShardJson, validate_external_kv_shards, validate_external_kv_partition_fingerprint,
}
use ds4_on_spark.ExternalKv.Calls.{
  Declared, declared_object, declared_shard, put_object, upsert_external_kv_object, find_object,
  shards_of, or_else,
}

module _ {A : Type 0} (p : A → Bool) where
  -- The rows that a change reaches have what the change gives them.
  pub All-select-update :
      (Q : A → Type 0) (f : A → A) (xs : List A)
      → ((x : A) → p x ≡ true → Q (f x))
      → All Q (select p (update p f xs))
  All-select-update Q f [] h = tt
  All-select-update Q f (x ∷ xs) h = elim (Bool-cases (p x)) [
    | inr other ↦ rw (other, other) (All-select-update Q f xs h)
    | inl hit ↦ rw hit (elim (Bool-cases (p (f x))) [
      | inl still ↦ rw still (h x hit, All-select-update Q f xs h)
      | inr gone ↦ rw gone (All-select-update Q f xs h)
    ])
  ]

  -- The rows that a change reaches, in their order, once it is made.
  pub select-update :
      (f : A → A) (xs : List A)
      → ((x : A) → p x ≡ true → p (f x) ≡ true)
      → select p (update p f xs) ≡ map f (select p xs)
  select-update f [] h = refl
  select-update f (x ∷ xs) h = elim (Bool-cases (p x)) [
    | inl hit ↦ rw (hit, h x hit) (ap (λ l. f x ∷ l) (select-update f xs h))
    | inr other ↦ rw (other, other) (select-update f xs h)
  ]

  -- The others are as they were.
  pub delete-update :
      (f : A → A) (xs : List A)
      → ((x : A) → p x ≡ true → p (f x) ≡ true)
      → delete p (update p f xs) ≡ delete p xs
  delete-update f [] h = refl
  delete-update f (x ∷ xs) h = elim (Bool-cases (p x)) [
    | inl hit ↦ rw (hit, h x hit) (delete-update f xs h)
    | inr other ↦ rw (other, other) (ap (λ l. x ∷ l) (delete-update f xs h))
  ]

  pub head-update :
      (f : A → A) (xs : List A)
      → ((x : A) → p (f x) ≡ true)
      → any p xs ≡ true
      → (x : A) × (head? (select p (update p f xs)) ≡ some (f x))
  head-update f [] h some_hit = cc some_hit
  head-update f (x ∷ xs) h some_hit = elim (Bool-cases (p x)) [
    | inl hit ↦ (x, rw (hit, h x) refl)
    | inr other ↦ let (y, e) = head-update f xs h (rw other at some_hit) in (y, rw (other, other) e)
  ]

  pub select-snoc :
      (xs : List A) (y : A) → p y ≡ true → any p xs ≡ false → select p (xs ++ y ∷ []) ≡ y ∷ []
  select-snoc [] y hit no_other = rw hit refl
  select-snoc (x ∷ xs) y hit no_other =
      let other : p x ≡ false = ground (arith, no_other) in
      rw other (select-snoc xs y hit (rw other at no_other))

  pub select-replaced :
      (xs ys : List A) → All (λ y. p y ≡ true) ys → select p (delete p xs ++ ys) ≡ ys
  select-replaced [] [] h = refl
  select-replaced [] (y ∷ ys) h = rw h.0 (ap (λ l. y ∷ l) (select-replaced [] ys h.1))
  select-replaced (x ∷ xs) ys h = elim (Bool-cases (p x)) [
    | inl hit ↦ rw hit (select-replaced xs ys h)
    | inr other ↦ rw (other, other) (select-replaced xs ys h)
  ]

object_at_own : (k : Key) (d : Declared) (now : ℕ) → object_at k (declared_object k d now) ≡ true
unfolding declared_object
object_at_own k d now = rw (==_self k.namespace, ==_self k.kv_key, ==_self k.service_id) refl

shards_at_own :
    (k : Key) (state : String) (size now : ℕ) (shards : List ShardJson)
    → All (λ s. shard_at k s ≡ true) (map (declared_shard k state size now) shards)
unfolding declared_shard
shards_at_own k state size now [] = tt
shards_at_own k state size now (s ∷ shards) = (
  rw (==_self k.namespace, ==_self k.kv_key, ==_self k.service_id) refl,
  shards_at_own k state size now shards,
)

-- Whether two rows differ in their time of creation at most.
abbrev pub Alike : Object → Object → Type 0
Alike o d = record o { created_at = d.created_at } ≡ d

find-put_object :
    (k : Key) (d : Declared) (now : ℕ) (objects : List Object)
    → (o : Object) × (head? (select (object_at k) (put_object k (declared_object k d now) objects))
        ≡ some o)
      × Alike o (declared_object k d now)
unfolding put_object
find-put_object k d now objects =
    let new = declared_object k d now in
    elim (Bool-cases (any (object_at k) objects)) [
      | inl there ↦
          let (old, e) =
            head-update (object_at k) (λ o. record new { created_at = o.created_at }) objects
              (λ o. object_at_own k d now) there in
          (record new { created_at = old.created_at }, rw there e, refl)
      | inr absent ↦ (
        new,
        rw absent (ap head? (select-snoc (object_at k) objects new (object_at_own k d now) absent)),
        refl,
      )
    ]

-- The rows that an accepted declaration leaves under its key.
pub upserted_rows :
    (k : Key) (d : Declared) (shards : List ShardJson) (now : ℕ) (st after : Store)
    → upsert_external_kv_object k d shards now st ≡ ok after
    → (o : Object) × (find_object k after ≡ some o)
      × Alike o (declared_object k d now)
      × (shards_of k after ≡ map (declared_shard k d.state (length shards) now) shards)
unfolding upsert_external_kv_object
upserted_rows k d shards now st after h =
    let (_, made) =
      >>-eq-ok
        (validate_external_kv_shards shards d.total_bytes
          >> validate_external_kv_partition_fingerprint (or_else d.metadata (dict [])) shards)
        _ h in
    let (o, found, same_fields) = find-put_object k d now st.objects in
    subst
      (λ (s : Store).
        (x : Object) × (find_object k s ≡ some x)
        × Alike x (declared_object k d now)
        × (shards_of k s ≡ map (declared_shard k d.state (length shards) now) shards))
      (ok_injective made)
      (
        o,
        found,
        same_fields,
        select-replaced (shard_at k) st.shards
            (map (declared_shard k d.state (length shards) now) shards)
            (shards_at_own k d.state (length shards) now shards),
      )
