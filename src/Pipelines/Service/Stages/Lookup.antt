-- ===== src/Pipelines/Service/Stages/Lookup.antt =====
-- pipelines.py: `stage_for_index` and `stage_for_node` find the stages that `stages` lists.
use ds4_on_spark.Prelude.{
  some_injective, ℕ, zero, suc, ◌+◌, ◌≤◌, ◌<◌, ◌≡◌, refl, String, true, some, List, [], ◌∷◌, length,
  arith, inl, inr, Bool-cases, ok, ◌==◌, string-Eq, nat-Eq, subst, eq_iff,
}
use ds4_on_spark.Prelude.Int.{pos}
use ds4_on_spark.Pipelines.Service.{PipelineService, elem}
use ds4_on_spark.Pipelines.Service.Valid.{IsService}
use ds4_on_spark.Pipelines.Service.Stages.{
  PipelineStage, stages_from, stages, stage_for_node, stage_for_index, at, index_of,
}

at-stages_from :
    (s : PipelineService) (index cursor : ℕ) (nodes : List String) (counts : List ℕ) (i : ℕ)
    → length counts ≡ length nodes
    → i < length nodes
    → (stage : PipelineStage) × (at (stages_from s index cursor nodes counts) i ≡ some stage)
      × (stage.stage_index ≡ index + i)
      × (at nodes i ≡ some stage.node_id)
unfolding stages_from
at-stages_from s index cursor [] counts i e low = elim low [ ]
at-stages_from s index cursor (n ∷ nodes) [] i e low =
    let bad : 1 ≤ 0 = omega (arith, e) in elim bad [ ]
at-stages_from s index cursor (n ∷ nodes) (c ∷ counts) zero e low = (_, refl, omega arith, refl)
at-stages_from s index cursor (n ∷ nodes) (c ∷ counts) (suc i) e low =
    let (stage, found, numbered, named) =
      at-stages_from s (index + 1) (cursor + c) nodes counts i (omega (arith, e))
        (omega (arith, low)) in
    (stage, found, omega (arith, numbered), named)

-- Every index below the number of stages has its stage, on the node at that place.
pub stage_for_index_lem :
    (known : List String) (s : PipelineService) (i : ℕ)
    → IsService known s
    → i < s.pipeline_parallel_size
    → (stage : PipelineStage) × (stage_for_index s (pos i) ≡ ok stage)
      × (stage.stage_index ≡ i)
      × (at s.node_ids i ≡ some stage.node_id)
unfolding stage_for_index stages
stage_for_index_lem known s i v low =
    let (stage, found, numbered, named) =
      at-stages_from s 0 0 s.node_ids s.layer_partition i v.split.staged
        (omega (arith, low, v.sized)) in
    (stage, rw found refl, omega (arith, numbered), named)

at_later :
    (y : String) (ys : List String) (i : ℕ) (x : String)
    → at ys i ≡ some x
    → at (y ∷ ys) (i + 1) ≡ some x
at_later y ys i x h =
    let next : suc i ≡ i + 1 = omega arith in subst (λ n. at (y ∷ ys) n ≡ some x) next h

index_of-at :
    (x : String) (xs : List String)
    → elem x xs ≡ true
    → (i : ℕ) × (index_of x xs ≡ some i) × (i < length xs) × (at xs i ≡ some x)
index_of-at x [] h = cc h
index_of-at x (y ∷ ys) h = elim (Bool-cases (y == x)) [
  | inl here ↦ (0, rw here refl, omega arith, ground (arith, eq_iff y x, here))
  | inr there ↦
      let (i, found, low, same) = index_of-at x ys (ground (arith, there, h)) in
      (i + 1, rw (there, found) refl, omega (arith, low), at_later y ys i x same)
]

-- Every node of an accepted service has a stage, and it is a stage on that node.
pub stage_for_node_lem :
    (known : List String) (s : PipelineService) (node_id : String)
    → IsService known s
    → elem node_id s.node_ids ≡ true
    → (stage : PipelineStage) × (stage_for_node s node_id ≡ ok stage) × (stage.node_id ≡ node_id)
unfolding stage_for_node stages
stage_for_node_lem known s node_id v listed =
    let (i, found, low, there) = index_of-at node_id s.node_ids listed in
    let (stage, taken, numbered, named) =
      at-stages_from s 0 0 s.node_ids s.layer_partition i v.split.staged low in
    (stage, rw (stage_for_node, found, taken) refl, some_injective (cc (there, named)))
