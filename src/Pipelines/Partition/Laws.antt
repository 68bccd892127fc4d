-- ===== src/Pipelines/Partition/Laws.antt =====
-- What an even and a balanced split add up to.
use native.Mathlib.Nat.{suc-mul, div-add-mod, mod-lt, le-div_iff_mul-le}
use ds4_on_spark.Prelude.{
  ℕ, zero, suc, ◌+◌, ◌-◌, ◌*◌, ◌/◌, ◌%◌, ◌≤◌, ◌<◌, min, ◌≡◌, refl, List, [], ◌∷◌, All, length, inl,
  inr, Bool-cases, ltb, arith, All-map, All-append, length-append, ◌++◌, ◌||◌, ok, subst,
}
use ds4_on_spark.Pipelines.Partition.{sum, spread, parts_with_tail, even_layer_partition}

pub length-spread : (base extra index stages : ℕ) → length (spread base extra index stages) ≡ stages
unfolding spread
length-spread base extra index zero = refl
length-spread base extra index (suc stages) =
    omega (arith, length-spread base extra (index + 1) stages)

pub sum-spread :
    (base extra index stages : ℕ)
    → sum (spread base extra index stages) ≡ stages * base + min stages (extra - index)
unfolding spread
sum-spread base extra index zero = ground arith
sum-spread base extra index (suc stages) =
    ground (arith, sum-spread base extra (index + 1) stages, suc-mul stages base)

pub spread_bounds :
    (base extra index stages : ℕ)
    → All (λ n. (base ≤ n) × (n ≤ base + 1)) (spread base extra index stages)
unfolding spread
spread_bounds base extra index zero = tt
spread_bounds base extra index (suc stages) =
    (ground arith, spread_bounds base extra (index + 1) stages)

pub sum-even :
    (total_layers stage_count : ℕ)
    → 0 < stage_count
    → sum (spread (total_layers / stage_count) (total_layers % stage_count) 0 stage_count)
      ≡ total_layers
sum-even total_layers stage_count some_stage = omega (
  arith,
  sum-spread (total_layers / stage_count) (total_layers % stage_count) 0 stage_count,
  div-add-mod total_layers stage_count,
  mod-lt total_layers some_stage,
)

-- A split of the layers: one part for each stage, none of them empty.
pub record Splits (total_layers stage_count : ℕ) (parts : List ℕ) : Type 0 where
  pub staged : length parts ≡ stage_count
  pub summed : sum parts ≡ total_layers
  pub filled : All (λ n. 1 ≤ n) parts

base_pos : (n k : ℕ) → 0 < k → k ≤ n → 1 ≤ n / k
base_pos n k k_pos k_le = (le-div_iff_mul-le k_pos).1 (omega (arith, k_le))

pub even-Splits :
    (total_layers stage_count : ℕ)
    → 0 < stage_count
    → stage_count ≤ total_layers
    → Splits total_layers stage_count
        (spread (total_layers / stage_count) (total_layers % stage_count) 0 stage_count)
even-Splits total_layers stage_count some_stage enough = record {
  staged = length-spread (total_layers / stage_count) (total_layers % stage_count) 0 stage_count;
  summed = sum-even total_layers stage_count some_stage;
  filled =
      let base = base_pos total_layers stage_count some_stage enough in
      All-map _ _ _ (λ n h. omega (arith, h.0, base))
        (spread_bounds (total_layers / stage_count) (total_layers % stage_count) 0 stage_count);
}

pub sum-append : (xs ys : List ℕ) → sum (xs ++ ys) ≡ sum xs + sum ys
sum-append [] ys = omega arith
sum-append (x ∷ xs) ys = omega (arith, sum-append xs ys)

pub parts_with_tail-Splits :
    (total_layers stage_count tail_layers : ℕ)
    → 1 < stage_count
    → 1 ≤ tail_layers
    → tail_layers + (stage_count - 1) ≤ total_layers
    → Splits total_layers stage_count (parts_with_tail total_layers stage_count tail_layers)
unfolding parts_with_tail
parts_with_tail-Splits total_layers stage_count tail_layers two tail_pos enough =
    let stages = stage_count - 1 in
    let remaining = total_layers - tail_layers in
    let front = spread (remaining / stages) (remaining % stages) 0 stages in
    let whole = even-Splits remaining stages (omega (arith, two)) (omega (arith, enough)) in
    record {
      staged = omega (arith, length-append front (tail_layers ∷ []), whole.staged, two);
      summed = omega (arith, sum-append front (tail_layers ∷ []), whole.summed, enough);
      filled = All-append (λ n. 1 ≤ n) front (tail_layers ∷ []) whole.filled (tail_pos, tt);
    }

-- An accepted even split has one part for each stage, all of them of one length or one layer more,
-- and together they are the layers of the model.
pub even_layer_partition-Splits :
    (total_layers stage_count : ℕ) (parts : List ℕ)
    → even_layer_partition total_layers stage_count ≡ ok parts
    → Splits total_layers stage_count parts
      × All (λ n. (total_layers / stage_count ≤ n) × (n ≤ total_layers / stage_count + 1)) parts
unfolding even_layer_partition
even_layer_partition-Splits total_layers stage_count parts answered =
    elim (Bool-cases (ltb stage_count 1 || ltb total_layers 1 || ltb total_layers stage_count)) [
      | inl bad ↦ cc (rw bad at answered)
      | inr good ↦
          let same_parts : spread (total_layers / stage_count) (total_layers % stage_count) 0
                stage_count
              ≡ parts =
            cc (rw good at answered) in
          subst
            (λ p.
              Splits total_layers stage_count p
              × All (λ n. (total_layers / stage_count ≤ n) × (n ≤ total_layers / stage_count + 1))
                  p)
            same_parts
            (
              even-Splits total_layers stage_count (ground (arith, good)) (ground (arith, good)),
              spread_bounds (total_layers / stage_count) (total_layers % stage_count) 0 stage_count,
            )
    ]
