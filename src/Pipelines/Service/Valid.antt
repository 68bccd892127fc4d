-- ===== src/Pipelines/Service/Valid.antt =====
-- What `from_json` promises of the service that it accepts.
use ds4_on_spark.Prelude.{
  ℕ, ◌≤◌, ◌≡◌, refl, subst, String, true, false, not, List, [], ◌∷◌, map, any, All, length, sum_by,
  ◌==◌, nat-Eq, string-Eq, arith, ok, >>=-eq-ok, >>-eq-ok, raise_if-eq-ok, ok_injective, ◌||◌,
}
use ds4_on_spark.Prelude.Int.{ℤ, pos, negsuc, ltb_ℤ, pos_part, neg_part, int-Eq}
use ds4_on_spark.Pipelines.Partition.{sum}
use ds4_on_spark.Pipelines.Partition.Laws.{Splits}
use ds4_on_spark.Pipelines.Service.{
  Strings, ServiceJson, PipelineService, elem, or_else, need, sums_to, check_parts, check_nodes,
  service_of, make_service, from_json, load_layer_partition_with_source,
}

-- The parts that pass the checks are natural numbers, and their sum is the sum of those.
parts_filled :
    (parts : List ℤ)
    → any (λ n. ltb_ℤ n (pos 1)) parts ≡ false
    → (sum_by neg_part parts ≡ 0)
      × (sum (map pos_part parts) ≡ sum_by pos_part parts)
      × All (λ n. 1 ≤ n) (map pos_part parts)
      × (length (map pos_part parts) ≡ length parts)
parts_filled [] h = (refl, refl, tt, refl)
parts_filled (pos n ∷ rest) h = ground (arith, parts_filled rest)
parts_filled (negsuc n ∷ rest) h = ground (arith, parts_filled rest)

check_parts-Splits :
    (parts : List ℤ) (total stages : ℕ) (answer : List ℕ)
    → check_parts parts total stages ≡ ok answer
    → Splits total stages answer
unfolding check_parts
check_parts-Splits parts total stages answer h =
    let (passed, same_answer) = >>-eq-ok _ _ h in
    let (passed_sum, filled) = >>-eq-ok _ _ passed in
    let (long, summed) = >>-eq-ok _ _ passed_sum in
    let facts = parts_filled parts (raise_if-eq-ok _ _ filled) in
    let same_length : not (length parts == stages) ≡ false = raise_if-eq-ok _ _ long in
    let same_sum : not (sums_to parts total) ≡ false = raise_if-eq-ok _ _ summed in
    let parts_of : map pos_part parts ≡ answer = cc (same_answer) in
    subst (λ p. Splits total stages p) parts_of
      (record {
        staged = ground (arith, same_length, facts.3);
        summed = ground (arith, same_sum, facts.0, facts.1);
        filled = facts.2;
      })

-- A service whose stages can be laid out, on nodes that the topology knows.
pub record IsService (known_node_ids : List String) (s : PipelineService) : Type 0 where
  pub placed : 1 ≤ length s.node_ids
  pub known : All (λ n. elem n known_node_ids ≡ true) s.node_ids
  pub entered : elem s.entry_node_id s.node_ids ≡ true
  pub sized : s.pipeline_parallel_size ≡ length s.node_ids
  pub tensored : 1 ≤ s.tensor_parallel_size
  pub split : Splits s.total_layers (length s.node_ids) s.layer_partition
  pub batched : 1 ≤ s.max_batch_size

all_known :
    (known node_ids : List String)
    → any (λ n. not (elem n known)) node_ids ≡ false
    → All (λ n. elem n known ≡ true) node_ids
all_known known [] h = tt
all_known known (n ∷ rest) h = ground (arith, all_known known rest)

at_least_one : (n : ℤ) → ltb_ℤ n (pos 1) ≡ false → 1 ≤ pos_part n
at_least_one (pos n) h = ground (arith, h)
at_least_one (negsuc n) h = ground (arith, h)

check_nodes-eq-ok :
    (node_ids known : List String) (entry : String) (size tensor total : ℤ)
    → check_nodes node_ids known entry size tensor total ≡ ok tt
    → (1 ≤ length node_ids)
      × All (λ n. elem n known ≡ true) node_ids
      × (elem entry node_ids ≡ true)
      × (1 ≤ pos_part tensor)
unfolding check_nodes
check_nodes-eq-ok node_ids known entry size tensor total h =
    let (h4, counts) = >>-eq-ok _ _ h in
    let (h3, _) = >>-eq-ok _ _ h4 in
    let (h2, entered) = >>-eq-ok _ _ h3 in
    let (h1, known_all) = >>-eq-ok _ _ h2 in
    let some_node = raise_if-eq-ok (length node_ids == 0) _ h1 in
    let entry_in = raise_if-eq-ok (not (elem entry node_ids)) _ entered in
    let positive =
      raise_if-eq-ok (ltb_ℤ tensor (pos 1) || ltb_ℤ size (pos 1) || ltb_ℤ total (pos 1)) _ counts in
    (
      ground (arith, some_node),
      all_known known node_ids (raise_if-eq-ok _ _ known_all),
      ground (arith, entry_in),
      at_least_one tensor (ground (arith, positive)),
    )

make_service-IsService :
    (strings : Strings) (item : ServiceJson) (known_node_ids : List String)
    (service_id profile_id model_id entry_node_id api_base_url : String) (node_ids : List String)
    (total_layers : ℤ) (s : PipelineService)
    → make_service strings item known_node_ids service_id profile_id model_id entry_node_id
        api_base_url node_ids total_layers
      ≡ ok s
    → IsService known_node_ids s
unfolding make_service service_of
make_service-IsService strings item known_node_ids service_id profile_id model_id entry_node_id
      api_base_url node_ids total_layers s h =
    let (checked, h1) = >>-eq-ok _ _ h in
    let nodes = check_nodes-eq-ok node_ids known_node_ids entry_node_id _ _ total_layers checked in
    let (read, _, h2) =
      >>=-eq-ok
        (load_layer_partition_with_source strings item node_ids (pos_part total_layers)
          (length node_ids))
        _ h1 in
    let (parts, checked_parts, h3) =
      >>=-eq-ok (check_parts read.0 (pos_part total_layers) (length node_ids)) _ h2 in
    let (batch, made) = >>-eq-ok _ _ h3 in
    let batch_size = or_else item.max_batch_size (or_else item.max_num_seqs (pos 1)) in
    let batched = at_least_one batch_size (raise_if-eq-ok _ _ batch) in
    let made_so = ok_injective made in
    subst (IsService known_node_ids) made_so (record {
      placed = nodes.0;
      known = nodes.1;
      entered = nodes.2;
      sized = refl;
      tensored = nodes.3;
      split =
          check_parts-Splits read.0 (pos_part total_layers) (length node_ids) parts checked_parts;
      batched = batched;
    })

-- Every service that from_json accepts has one non-empty run of layers for each node, which add up to
-- the layers of the model, known nodes with the entry node among them, and a batch size of at least 1.
pub from_json-IsService :
    (strings : Strings) (item : ServiceJson) (known_node_ids : List String) (s : PipelineService)
    → from_json strings item known_node_ids ≡ ok s
    → IsService known_node_ids s
unfolding from_json
from_json-IsService strings item known_node_ids s h =
    let (service_id, _, h1) = >>=-eq-ok (need item.service_id) _ h in
    let (profile_id, _, h2) = >>=-eq-ok (need item.profile_id) _ h1 in
    let (model_id, _, h3) = >>=-eq-ok (need item.model_id) _ h2 in
    let (entry_node_id, _, h4) = >>=-eq-ok (need item.entry_node_id) _ h3 in
    let (node_ids, _, h5) = >>=-eq-ok (need item.node_ids) _ h4 in
    let (api_base_url, _, h6) = >>=-eq-ok (need item.api_base_url) _ h5 in
    let (total_layers, _, h7) = >>=-eq-ok (need item.total_layers) _ h6 in
    make_service-IsService strings item known_node_ids service_id profile_id model_id entry_node_id
      api_base_url node_ids total_layers s h7
