-- ===== src/Pipelines/Service/Stages/Laws.antt =====
-- The stages of a service: they tile its layers, and every shard lies on one of them.
use ds4_on_spark.Prelude.{
  ℕ, ◌+◌, ◌≤◌, ◌<◌, ◌≡◌, refl, String, Bool, true, false, List, [], ◌∷◌, All, length, arith, inl,
  inr, Bool-cases, string-Eq, nat-Eq, subst, leb, ltb, ◌&&◌, count,
}
use ds4_on_spark.Pipelines.Partition.{sum}
use ds4_on_spark.Pipelines.Service.{PipelineService}
use ds4_on_spark.Pipelines.Service.Valid.{IsService}
use ds4_on_spark.Pipelines.Service.Stages.{PipelineStage, stages_from, stages}

-- The stages follow one another from `start` on, each with layers, and end at `end_layer`.
pub Tiles : (start end_layer index : ℕ) → List PipelineStage → Type 0
Tiles start end_layer index [] = start ≡ end_layer
Tiles start end_layer index (s ∷ rest) =
    (s.stage_index ≡ index)
    × (s.layer_start ≡ start)
    × (s.layer_start < s.layer_end)
    × Tiles s.layer_end end_layer (index + 1) rest

stages_from-Tiles :
    (s : PipelineService) (index cursor : ℕ) (nodes : List String) (counts : List ℕ)
    → length counts ≡ length nodes
    → All (λ n. 1 ≤ n) counts
    → Tiles cursor (cursor + sum counts) index (stages_from s index cursor nodes counts)
unfolding Tiles stages_from
stages_from-Tiles s index cursor [] [] same_length filled = omega arith
stages_from-Tiles s index cursor [] (c ∷ counts) same_length filled = omega (arith, same_length)
stages_from-Tiles s index cursor (n ∷ nodes) [] same_length filled = omega (arith, same_length)
stages_from-Tiles s index cursor (n ∷ nodes) (c ∷ counts) same_length filled =
    let next =
      stages_from-Tiles s (index + 1) (cursor + c) nodes counts (omega (arith, same_length))
        filled.1 in
    let same_end : cursor + c + sum counts ≡ cursor + (c + sum counts) = omega arith in
    (
      refl,
      refl,
      omega (arith, filled.0),
      subst
          (λ e.
            Tiles (cursor + c) e (index + 1) (stages_from s (index + 1) (cursor + c) nodes counts))
          same_end next,
    )

length-stages_from :
    (s : PipelineService) (index cursor : ℕ) (nodes : List String) (counts : List ℕ)
    → length counts ≡ length nodes
    → length (stages_from s index cursor nodes counts) ≡ length nodes
unfolding stages_from
length-stages_from s index cursor [] [] e = refl
length-stages_from s index cursor [] (c ∷ counts) e = omega (arith, e)
length-stages_from s index cursor (n ∷ nodes) [] e = omega (arith, e)
length-stages_from s index cursor (n ∷ nodes) (c ∷ counts) e =
    omega (arith, length-stages_from s (index + 1) (cursor + c) nodes counts (omega (arith, e)))

-- Whether the stage runs the layer.
abbrev pub owns : ℕ → PipelineStage → Bool
owns layer stage = leb stage.layer_start layer && ltb layer stage.layer_end

past :
    (start end_layer index layer : ℕ) (rest : List PipelineStage)
    → Tiles start end_layer index rest
    → layer < start
    → count (owns layer) rest ≡ 0
unfolding Tiles
past start end_layer index layer [] t below = refl
past start end_layer index layer (s ∷ rest) t below =
    let later =
      past s.layer_end end_layer (index + 1) layer rest t.3 (omega (arith, t.1, t.2, below)) in
    let not_here : leb s.layer_start layer ≡ false = ground (arith, t.1, below) in
    rw not_here (omega (arith, later))

once :
    (start end_layer index layer : ℕ) (rest : List PipelineStage)
    → Tiles start end_layer index rest
    → start ≤ layer
    → layer < end_layer
    → count (owns layer) rest ≡ 1
unfolding Tiles
once start end_layer index layer [] t low high = omega (arith, t, low, high)
once start end_layer index layer (s ∷ rest) t low high =
    let begun : leb s.layer_start layer ≡ true = ground (arith, t.1, low) in
    elim (Bool-cases (ltb layer s.layer_end)) [
      | inl inside ↦
          rw (begun, inside)
            (omega (
              arith,
              past s.layer_end end_layer (index + 1) layer rest t.3 (ground (arith, inside)),
            ))
      | inr beyond ↦
          rw (begun, beyond)
            (omega (
              arith,
              once s.layer_end end_layer (index + 1) layer rest t.3 (ground (arith, beyond)) high,
            ))
    ]

-- The stages of an accepted service, in order, take the layers from 0 to the last, each from where the
-- one before stops, and there are as many of them as nodes.
pub stages-Tiles :
    (known : List String) (s : PipelineService)
    → IsService known s
    → Tiles 0 s.total_layers 0 (stages s) × (length (stages s) ≡ length s.node_ids)
unfolding stages
stages-Tiles known s v =
    let laid = stages_from-Tiles s 0 0 s.node_ids s.layer_partition v.split.staged v.split.filled in
    let whole : 0 + sum s.layer_partition ≡ s.total_layers = omega (arith, v.split.summed) in
    (
      subst (λ e. Tiles 0 e 0 (stages_from s 0 0 s.node_ids s.layer_partition)) whole laid,
      length-stages_from s 0 0 s.node_ids s.layer_partition v.split.staged,
    )

-- Each layer of an accepted service is run by exactly one stage.
pub stages_once :
    (known : List String) (s : PipelineService) (layer : ℕ)
    → IsService known s
    → layer < s.total_layers
    → count (owns layer) (stages s) ≡ 1
stages_once known s layer v inside =
    once 0 s.total_layers 0 layer (stages s) (stages-Tiles known s v).0 (omega arith) inside
