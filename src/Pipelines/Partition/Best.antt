-- ===== src/Pipelines/Partition/Best.antt =====
-- The balanced split: what the search over the tail answers.
use ds4_on_spark.Prelude.{
  ℕ, zero, suc, ◌+◌, ◌-◌, ◌≤◌, ◌<◌, ◌≡◌, refl, ◌∙◌, subst, true, false, ◌==◌, nat-Eq, Option, none,
  some, List, [], ◌∷◌, ltb, ◌⊎◌, inl, inr, Bool-cases, ok, arith,
}
use ds4_on_spark.Pipelines.Partition.{
  Score, score_of, score_before, better, best_score, parts_with_tail, largest, costs_of,
  balanced_layer_partition,
}
use ds4_on_spark.Pipelines.Partition.Laws.{Splits, parts_with_tail-Splits}

-- The largest cost of a stage.
abbrev pub peak_of : ℕ → List ℕ → ℕ
peak_of tail_extra parts = largest (costs_of tail_extra parts)

-- The split that the search found, one of the candidates, whose largest cost is below `peak`.
record Found (total_layers stage_count tail_extra : ℕ) (s : Score) : Type 0 where
  splits : Splits total_layers stage_count s.parts
  peaked : s.peak ≡ peak_of tail_extra s.parts

candidate-Found :
    (total_layers stage_count tail_extra tail_layers : ℕ)
    → 1 < stage_count
    → 1 ≤ tail_layers
    → tail_layers + (stage_count - 1) ≤ total_layers
    → Found total_layers stage_count tail_extra
        (score_of tail_extra (parts_with_tail total_layers stage_count tail_layers))
unfolding score_of
candidate-Found total_layers stage_count tail_extra tail_layers two one enough = record {
  splits = parts_with_tail-Splits total_layers stage_count tail_layers two one enough;
  peaked = refl;
}

better_choice :
    (s : Score) (best : Option Score) → (better s best ≡ s) ⊎ (some (better s best) ≡ best)
better_choice s none = inl refl
better_choice s (some b) = ground arith

not_before : (s t : Score) → score_before s t ≡ false → t.peak ≤ s.peak
unfolding score_before
not_before s t h = ground arith

before : (s t : Score) → score_before s t ≡ true → s.peak ≤ t.peak
unfolding score_before
before s t h = ground arith

-- No candidate with a shorter tail than `tail_layers` has a smaller largest cost.
record Minimal (total_layers stage_count tail_extra tail_layers : ℕ) (s : Score) : Type 0 where
  found : Found total_layers stage_count tail_extra s
  least :
      (j : ℕ)
      → 1 ≤ j
      → j < tail_layers
      → s.peak ≤ peak_of tail_extra (parts_with_tail total_layers stage_count j)

module _ (total_layers stage_count tail_extra : ℕ) (two : 1 < stage_count) where
  abbrev score_at : ℕ → Score
  score_at tail_layers = score_of tail_extra (parts_with_tail total_layers stage_count tail_layers)

  peak-score_at :
      (tail_layers : ℕ)
      → (score_at tail_layers).peak
        ≡ peak_of tail_extra (parts_with_tail total_layers stage_count tail_layers)
  unfolding score_of
  peak-score_at tail_layers = refl

  first-Minimal :
      1 + (stage_count - 1) ≤ total_layers
      → Minimal total_layers stage_count tail_extra 2 (score_at 1)
  unfolding score_of
  first-Minimal enough = record {
    found =
        candidate-Found total_layers stage_count tail_extra 1 two (omega arith)
          (omega (arith, enough));
    least = λ j low high.
        let same_tail : 1 ≡ j = omega (arith, low, high) in
        subst
          (λ i. (score_at 1).peak ≤ peak_of tail_extra (parts_with_tail total_layers stage_count i))
          same_tail (omega arith);
  }

  later-Minimal :
      (tail_layers : ℕ) (b : Score)
      → 1 ≤ tail_layers
      → tail_layers + (stage_count - 1) ≤ total_layers
      → Minimal total_layers stage_count tail_extra tail_layers b
      → Minimal total_layers stage_count tail_extra
          (tail_layers + 1)
          (better (score_at tail_layers) (some b))
  later-Minimal tail_layers b low enough m =
      let here_found =
        candidate-Found total_layers stage_count tail_extra tail_layers two low enough in
      let other : (s : Score)
          → s.peak ≤ b.peak
          → s.peak ≤ (score_at tail_layers).peak
          → (j : ℕ) → 1 ≤ j
          → j < tail_layers + 1
          → s.peak ≤ peak_of tail_extra (parts_with_tail total_layers stage_count j) =
        λ s old new j from to. elim (Bool-cases (ltb j tail_layers)) [
          | inl shorter ↦ omega (arith, old, m.least j from (ground (arith, shorter)))
          | inr no_shorter ↦
              let same_tail : tail_layers ≡ j = ground (arith, no_shorter, to) in
              subst (λ i. s.peak ≤ peak_of tail_extra (parts_with_tail total_layers stage_count i))
                same_tail (omega (arith, new, peak-score_at tail_layers))
        ] in
      elim (Bool-cases (score_before (score_at tail_layers) b)) [
        | inl wins ↦ rw wins (record {
          found = here_found;
          least = other (score_at tail_layers) (before (score_at tail_layers) b wins) (omega arith);
        })
        | inr loses ↦ rw loses (record {
          found = m.found;
          least = other b (omega arith) (not_before (score_at tail_layers) b loses);
        })
      ]

  best_score-Minimal :
      (tail_layers tries : ℕ) (b : Score)
      → 1 ≤ tail_layers
      → tail_layers + tries + (stage_count - 1) ≤ total_layers + 1
      → Minimal total_layers stage_count tail_extra tail_layers b
      → (r : Score) × (best_score total_layers stage_count tail_extra tail_layers tries (some b)
          ≡ some r)
        × Minimal total_layers stage_count tail_extra (tail_layers + tries) r
  unfolding best_score
  best_score-Minimal tail_layers zero b low enough m =
      (b, refl, subst (λ n. Minimal total_layers stage_count tail_extra n b) (omega arith) m)
  best_score-Minimal tail_layers (suc tries) b low enough m =
      let room : ltb (total_layers - tail_layers) (stage_count - 1) ≡ false =
        ground (arith, enough) in
      let (r, e, k) =
        best_score-Minimal (tail_layers + 1) tries (better (score_at tail_layers) (some b))
          (omega arith) (omega (arith, enough))
          (later-Minimal tail_layers b low (omega (arith, enough)) m) in
      (r, rw room e, subst (λ n. Minimal total_layers stage_count tail_extra n r) (omega arith) k)

  best_score-first :
      (n : ℕ)
      → 1 + (stage_count - 1) ≤ total_layers
      → best_score total_layers stage_count tail_extra 1 (suc n) none
        ≡ best_score total_layers stage_count tail_extra 2 n (some (score_at 1))
  unfolding best_score
  best_score-first n enough =
      let room : ltb (total_layers - 1) (stage_count - 1) ≡ false = ground (arith, enough) in
      rw room refl

  balanced_found :
      stage_count ≤ total_layers
      → (r : Score) × (balanced_layer_partition total_layers stage_count tail_extra ≡ ok r.parts)
        × Minimal total_layers stage_count tail_extra (total_layers - (stage_count - 1) + 1) r
  unfolding balanced_layer_partition
  balanced_found enough =
      let tries = total_layers - (stage_count - 1) in
      let (r, e, m) =
        best_score-Minimal 2 (tries - 1) (score_at 1) (omega arith) (omega (arith, two, enough))
          (first-Minimal (omega (arith, two, enough))) in
      let one_try : suc (tries - 1) ≡ tries = omega (arith, two, enough) in
      let found : best_score total_layers stage_count tail_extra 1 tries none ≡ some r =
        subst (λ n. best_score total_layers stage_count tail_extra 1 n none ≡ some r) one_try
          (best_score-first (tries - 1) (omega (arith, two, enough)) ∙ e) in
      let layered : ltb total_layers 1 ≡ false = ground (arith, two, enough) in
      let staged : ltb stage_count 1 ≡ false = ground (arith, two) in
      let wide : ltb total_layers stage_count ≡ false = ground (arith, enough) in
      let several : (stage_count == 1) ≡ false = ground (arith, two) in
      (
        r,
        rw (layered, staged, wide, several, found) refl,
        subst (λ n. Minimal total_layers stage_count tail_extra n r) (omega (arith, two, enough)) m,
      )

one_stage :
    (total_layers tail_extra : ℕ)
    → 1 ≤ total_layers
    → (balanced_layer_partition total_layers 1 tail_extra ≡ ok (total_layers ∷ []))
      × Splits total_layers 1 (total_layers ∷ [])
unfolding balanced_layer_partition
one_stage total_layers tail_extra one =
    let layered : ltb total_layers 1 ≡ false = ground (arith, one) in
    (rw layered refl, record { staged = refl; summed = omega arith; filled = (one, tt) })

-- For any number of stages from one to the number of layers, the balanced split is made: one part
-- for each stage, none of them empty, together all the layers.
pub balanced_layer_partition-Splits :
    (total_layers stage_count tail_extra : ℕ)
    → 1 ≤ stage_count
    → stage_count ≤ total_layers
    → (parts : List ℕ) × (balanced_layer_partition total_layers stage_count tail_extra ≡ ok parts)
      × Splits total_layers stage_count parts
balanced_layer_partition-Splits total_layers stage_count tail_extra one enough =
    elim (Bool-cases (ltb 1 stage_count)) [
      | inl several ↦
          let (r, e, m) =
            balanced_found total_layers stage_count tail_extra (ground (arith, several)) enough in
          (r.parts, e, m.found.splits)
      | inr single ↦
          let only : 1 ≡ stage_count = ground (arith, single, one) in
          subst
            (λ n.
              (parts : List ℕ) × (balanced_layer_partition total_layers n tail_extra ≡ ok parts)
              × Splits total_layers n parts)
            only
            (let (e, s) = one_stage total_layers tail_extra (omega (arith, one, enough)) in
              (total_layers ∷ [], e, s))
    ]

-- With two stages or more, no split with another tail and the rest split evenly has a smaller
-- largest cost than the split that is made.
pub balanced_layer_partition-least :
    (total_layers stage_count tail_extra : ℕ) (parts : List ℕ) (tail_layers : ℕ)
    → 1 < stage_count
    → balanced_layer_partition total_layers stage_count tail_extra ≡ ok parts
    → 1 ≤ tail_layers
    → tail_layers + (stage_count - 1) ≤ total_layers
    → peak_of tail_extra parts
      ≤ peak_of tail_extra (parts_with_tail total_layers stage_count tail_layers)
balanced_layer_partition-least total_layers stage_count tail_extra parts tail_layers two answered
      low fits =
    let (r, e, m) =
      balanced_found total_layers stage_count tail_extra two (omega (arith, two, low, fits)) in
    let same_parts : r.parts ≡ parts = cc (answered, e) in
    subst
      (λ p.
        peak_of tail_extra p
        ≤ peak_of tail_extra (parts_with_tail total_layers stage_count tail_layers))
      same_parts
      (omega (arith, m.found.peaked, m.least tail_layers low (omega (arith, low, fits, two))))
