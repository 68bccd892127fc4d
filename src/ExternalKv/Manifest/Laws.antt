-- ===== src/ExternalKv/Manifest/Laws.antt =====
-- external_kv_shards.py: what the check of a manifest promises.
use ds4_on_spark.Prelude.{
  ℕ, ◌≤◌, ◌<◌, ◌≡◌, ◌≢◌, refl, sym, ◌∙◌, subst, String, true, false, not, ◌&&◌, ◌||◌, List, [], ◌∷◌,
  ◌++◌, map, All, all, any, length, ◌==◌, string-Eq, nat-Eq, ne_of-==, arith, inl, inr, Bool-cases,
  ok, raise_if, ◌>>◌, >>=-eq-ok, >>-eq-ok, raise_if-eq-ok, ok_injective,
}
use mathlib.Core.List.{append-nil, append_assoc}
use ds4_on_spark.Prelude.Int.{ℤ, pos, negsuc, ltb_ℤ, int-Eq, int_eq_iff}
use ds4_on_spark.ExternalKv.Manifest.{
  ShardJson, node_of, index_of, count_of, check_shards, check_counts, agree, first,
  validate_external_kv_shards,
}

-- The second shard is not on the node and the stage of the first.
abbrev pub Apart : String × ℤ → ShardJson → Type 0
Apart x r = (x.0 == node_of r && x.1 == index_of r) ≡ false

abbrev pub Separate : List ShardJson → Type 0
Separate [] = Unit {0}
Separate (s ∷ rest) = All (Apart (node_of s, index_of s)) rest × Separate rest

-- What the loop checks of one shard.
record Ranged (size : ℕ) (s : ShardJson) : Type 0 where
  placed : node_of s ≢ ""
  low : ltb_ℤ (index_of s) (pos 0) ≡ false
  high : ltb_ℤ (index_of s) (count_of size s) ≡ true

record Checked (size : ℕ) (shards : List ShardJson) (seen : List (String × ℤ))
    (counts answer : List ℤ) : Type 0 where
  ranged : All (Ranged size) shards
  separate : Separate shards
  unseen : All (λ s. All (λ x. Apart x s) seen) shards
  answered : answer ≡ counts ++ map (count_of size) shards

none_seen :
    (seen : List (String × ℤ)) (s : ShardJson)
    → any (λ (x : String × ℤ). x.0 == node_of s && x.1 == index_of s) seen ≡ false
    → All (λ x. Apart x s) seen
none_seen [] s h = tt
none_seen (x ∷ seen) s h = (ground (arith, h), none_seen seen s (ground (arith, h)))

heads :
    (x : String × ℤ) (seen : List (String × ℤ)) (shards : List ShardJson)
    → All (λ s. All (λ y. Apart y s) (x ∷ seen)) shards
    → All (Apart x) shards × All (λ s. All (λ y. Apart y s) seen) shards
heads x seen [] h = (tt, tt)
heads x seen (s ∷ shards) h =
    let (now, later) = heads x seen shards h.1 in ((h.0.0, now), (h.0.1, later))

check_shards-Checked :
    (size : ℕ) (shards : List ShardJson) (seen : List (String × ℤ)) (counts answer : List ℤ)
    → check_shards size shards seen counts ≡ ok answer
    → Checked size shards seen counts answer
unfolding check_shards
check_shards-Checked size [] seen counts answer h = record {
  ranged = tt;
  separate = tt;
  unseen = tt;
  answered = sym (ok_injective h) ∙ sym (append-nil counts);
}
check_shards-Checked size (s ∷ rest) seen counts answer h =
    let (placed, h1) = >>-eq-ok _ _ h in
    let (staged, h2) = >>-eq-ok _ _ h1 in
    let (fresh, h3) = >>-eq-ok _ _ h2 in
    let later =
      check_shards-Checked size rest ((node_of s, index_of s) ∷ seen)
        (counts ++ count_of size s ∷ []) answer h3 in
    let (apart, unseen) = heads (node_of s, index_of s) seen rest later.unseen in
    let range =
      raise_if-eq-ok
        (ltb_ℤ (index_of s) (pos 0)
          || (ltb_ℤ (count_of size s) (pos 1) || not (ltb_ℤ (index_of s) (count_of size s))))
        _ staged in
    record {
      ranged = (
        record {
          placed = ne_of-== (node_of s) "" (raise_if-eq-ok _ _ placed);
          low = ground (arith, range);
          high = ground (arith, range);
        },
        later.ranged,
      );
      separate = (apart, later.separate);
      unseen = (none_seen seen s (raise_if-eq-ok _ _ fresh), unseen);
      answered =
          later.answered ∙ append_assoc counts (count_of size s ∷ []) (map (count_of size) rest);
    }

-- A shard of a manifest of `size` shards: on a node, on one of that many stages, and says so.
pub record IsShard (size : ℕ) (s : ShardJson) : Type 0 where
  pub placed : node_of s ≢ ""
  pub staged : (i : ℕ) × (index_of s ≡ pos i) × (i < size)
  pub counted : count_of size s ≡ pos size

agreed :
    (n : ℤ) (size : ℕ) (shards : List ShardJson)
    → n ≡ pos size
    → all (λ m. m == n) (map (count_of size) shards) ≡ true
    → All (λ s. count_of size s ≡ pos size) shards
agreed n size [] e h = tt
agreed n size (s ∷ rest) e h = (
  (int_eq_iff (count_of size s) n).0 (ground (arith, h)) ∙ e,
  agreed n size rest e (ground (arith, h)),
)

all_counted :
    (size : ℕ) (shards : List ShardJson)
    → agree (map (count_of size) shards) ≡ true
    → (first (map (count_of size) shards) == pos size) ≡ true
    → All (λ s. count_of size s ≡ pos size) shards
all_counted size [] h f = tt
all_counted size (s ∷ rest) h f =
    let e : count_of size s ≡ pos size = (int_eq_iff (count_of size s) (pos size)).0 f in
    (e, agreed (count_of size s) size rest e h)

index_below :
    (i : ℤ) (size : ℕ)
    → ltb_ℤ i (pos 0) ≡ false
    → ltb_ℤ i (pos size) ≡ true
    → (n : ℕ) × (i ≡ pos n) × (n < size)
index_below (pos n) size low high = (n, refl, ground (arith, high))
index_below (negsuc n) size low high = let bad : 1 ≤ 0 = ground (arith, low) in elim bad [ ]

All-IsShard :
    (size : ℕ) (shards : List ShardJson)
    → All (Ranged size) shards
    → All (λ s. count_of size s ≡ pos size) shards
    → All (IsShard size) shards
All-IsShard size [] h k = tt
All-IsShard size (s ∷ rest) h k = (
  record {
    placed = h.0.placed;
    staged =
        index_below (index_of s) size h.0.low
          (subst (λ n. ltb_ℤ (index_of s) n ≡ true) k.0 h.0.high);
    counted = k.0;
  },
  All-IsShard size rest h.1 k.1,
)

check_counts-agree :
    (shards : List ShardJson) (total_bytes : ℤ) (counts : List ℤ)
    → check_counts shards total_bytes counts ≡ ok tt
    → (agree counts ≡ true) × ((first counts == pos (length shards)) ≡ true)
unfolding check_counts
check_counts-agree shards total_bytes counts h =
    let agreeing = raise_if (not (agree counts)) "external KV shards must agree on stage_count" in
    let whole =
      raise_if (not (first counts == pos (length shards)))
        "external KV shard manifest must include exactly one shard per pipeline stage" in
    let (h1, _) = >>-eq-ok (agreeing >> whole) _ h in
    let (h2, h3) = >>-eq-ok agreeing whole h1 in
    let same_count = raise_if-eq-ok (not (agree counts)) _ h2 in
    let size_count = raise_if-eq-ok (not (first counts == pos (length shards))) _ h3 in
    (ground (arith, same_count), ground (arith, size_count))

-- Each shard of a manifest that is accepted is on a named node and on one of as many stages as there
-- are shards, and no two are on one node and one stage.
pub validate_external_kv_shards-IsShard :
    (shards : List ShardJson) (total_bytes : ℤ)
    → validate_external_kv_shards shards total_bytes ≡ ok tt
    → All (IsShard (length shards)) shards × Separate shards
unfolding validate_external_kv_shards
validate_external_kv_shards-IsShard shards total_bytes h =
    let size = length shards in
    elim (Bool-cases (size == 0)) [
      | inl empty ↦ cc (rw empty at h)
      | inr some_shard ↦
          let (counts, checked, more) =
            >>=-eq-ok (check_shards size shards [] []) (check_counts shards total_bytes)
              (rw some_shard at h) in
          let facts = check_shards-Checked size shards [] [] counts checked in
          let (same_count, size_count) = check_counts-agree shards total_bytes counts more in
          (
            All-IsShard size shards facts.ranged (
                all_counted size shards (subst (λ l. agree l ≡ true) facts.answered same_count)
                  (subst (λ l. (first l == pos size) ≡ true) facts.answered size_count)),
            facts.separate,
          )
    ]
