-- ===== src/Pipelines/Partition.antt =====
-- pipelines.py: how the layers of a model are split over the stages (`even_layer_partition`,
-- `balanced_layer_partition`, `layer_partition_by_node`, the presets). Costs are whole hundredths of a
-- layer, where the code counts in floats.
pub mod Laws
pub mod Best
use ds4_on_spark.Prelude.{
  ℕ, zero, suc, ◌+◌, ◌-◌, ◌*◌, ◌/◌, ◌%◌, max, String, Bool, true, false, not, ◌&&◌, ◌||◌, Option,
  none, some, List, [], ◌∷◌, ◌++◌, map, all, any, length, sum_by, ltb, leb, ◌==◌, nat-Eq, string-Eq,
  if◌then◌else◌, Result, ok, value_error, raise_if, ◌>>=◌, ◌>>◌,
}
use ds4_on_spark.Prelude.Int.{ℤ, pos}

abbrev pub sum : List ℕ → ℕ
sum = sum_by (λ n. n)

-- tuple(base + 1 if index < extra else base for index in range(…)), from `index` on
unfoldable pub spread : (base extra index : ℕ) (stages : ℕ) → List ℕ
spread base extra index zero = []
spread base extra index (suc stages) =
    (if ltb index extra then base + 1 else base) ∷ spread base extra (index + 1) stages

unfoldable pub even_layer_partition : (total_layers stage_count : ℕ) → Result (List ℕ)
unfolding spread
even_layer_partition total_layers stage_count =
    raise_if (ltb stage_count 1 || ltb total_layers 1 || ltb total_layers stage_count)
      "invalid layer/stage count"
    >> ok (spread (total_layers / stage_count) (total_layers % stage_count) 0 stage_count)

-- prefix + (tail_layers,)
unfoldable pub parts_with_tail : (total_layers stage_count tail_layers : ℕ) → List ℕ
unfolding spread
parts_with_tail total_layers stage_count tail_layers =
    let remaining = total_layers - tail_layers in
    let base = remaining / (stage_count - 1) in
    let extra = remaining % (stage_count - 1) in
    spread base extra 0 (stage_count - 1) ++ tail_layers ∷ []

-- The costs of the stages: the last one carries the extra.
unfoldable pub costs_of : (tail_extra : ℕ) → List ℕ → List ℕ
costs_of tail_extra [] = []
costs_of tail_extra (count ∷ []) = (count * 100 + tail_extra) ∷ []
costs_of tail_extra (count ∷ next ∷ rest) = (count * 100) ∷ costs_of tail_extra (next ∷ rest)

unfoldable pub largest : List ℕ → ℕ
largest [] = 0
largest (c ∷ []) = c
largest (c ∷ d ∷ cs) = max c (largest (d ∷ cs))

unfoldable pub smallest : List ℕ → ℕ
smallest [] = 0
smallest (c ∷ []) = c
smallest (c ∷ d ∷ cs) = let rest = smallest (d ∷ cs) in if leb c rest then c else rest

unfoldable pub last_of : List ℕ → ℕ
last_of [] = 0
last_of (c ∷ []) = c
last_of (c ∷ d ∷ cs) = last_of (d ∷ cs)

-- The tuple that is minimised. The costs of every candidate have one sum, so the largest cost over
-- the average is compared by the largest cost, and the distance from the average by the distance of
-- the multiples by the number of stages.
pub record Score : Type 0 where
  pub peak : ℕ
  pub width : ℕ
  pub off_average : ℕ
  pub parts : List ℕ

unfoldable pub score_of : (tail_extra : ℕ) → List ℕ → Score
unfolding costs_of largest smallest last_of
score_of tail_extra parts =
    let costs = costs_of tail_extra parts in
    let mean = sum costs in
    let tail = last_of costs * length parts in
    record {
      peak = largest costs;
      width = largest costs - smallest costs;
      off_average = (tail - mean) + (mean - tail);
      parts = parts;
    }

-- The order of tuples of ints.
unfoldable pub parts_before : List ℕ → List ℕ → Bool
parts_before [] [] = false
parts_before [] (b ∷ others) = true
parts_before (a ∷ rest) [] = false
parts_before (a ∷ rest) (b ∷ others) = ltb a b || a == b && parts_before rest others

-- score < best
unfoldable pub score_before : Score → Score → Bool
unfolding parts_before
score_before s t =
    ltb s.peak t.peak
    || s.peak == t.peak
      && (ltb s.width t.width
          || s.width == t.width
            && (ltb s.off_average t.off_average
                || s.off_average == t.off_average && parts_before s.parts t.parts))

abbrev pub better : Score → Option Score → Score
better s none = s
better s (some best) = if score_before s best then s else best

-- for tail_layers in range(…): `tries` of them are left
unfoldable pub best_score :
    (total_layers stage_count tail_extra tail_layers : ℕ) (tries : ℕ) → Option Score → Option Score
unfolding score_of parts_with_tail score_before
best_score total_layers stage_count tail_extra tail_layers zero best = best
best_score total_layers stage_count tail_extra tail_layers (suc tries) best =
    let remaining = total_layers - tail_layers in
    let score = score_of tail_extra (parts_with_tail total_layers stage_count tail_layers) in
    let next = if ltb remaining (stage_count - 1) then best else some (better score best) in
    best_score total_layers stage_count tail_extra (tail_layers + 1) tries next

-- `assert best is not None` is the last case.
abbrev pub best_parts : Option Score → Result (List ℕ)
best_parts (some s) = ok s.parts
best_parts none = value_error "AssertionError"

unfoldable pub balanced_layer_partition :
    (total_layers stage_count tail_extra : ℕ) → Result (List ℕ)
unfolding best_score
balanced_layer_partition total_layers stage_count tail_extra =
    raise_if (ltb total_layers 1) "total_layers must be positive"
    >> raise_if (ltb stage_count 1) "stage_count must be positive"
    >> raise_if (ltb total_layers stage_count) "stage_count cannot exceed total_layers"
    >> (if stage_count == 1
        then ok (total_layers ∷ [])
        else best_parts (
            best_score total_layers stage_count tail_extra 1 (total_layers - (stage_count - 1))
              none))

unfoldable pub qwen36_27b_bf16_layer_partition : ℕ → Result (List ℕ)
unfolding balanced_layer_partition
qwen36_27b_bf16_layer_partition stage_count = balanced_layer_partition 64 stage_count 333
