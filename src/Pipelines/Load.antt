-- ===== src/Pipelines/Load.antt =====
-- pipelines.py: `load_pipeline_services`.
use ds4_on_spark.Prelude.{
  String, false, Option, none, some, List, [], ◌∷◌, ◌++◌, any, All, All-append, ◌==◌, string-Eq,
  ne_of-==, if◌then◌else◌, ◌≡◌, ◌≢◌, subst, arith, Result, ok, value_error, raise_if, ◌>>=◌, ◌>>◌,
  >>=-eq-ok, >>-eq-ok, raise_if-eq-ok, ok_injective,
}
use ds4_on_spark.Pipelines.Service.{Strings, ServiceJson, PipelineService, from_json, is_none}
use ds4_on_spark.Pipelines.Service.Valid.{IsService, from_json-IsService}

-- What `pipeline_services` may hold: nothing or an empty object, an object by service id, whose values
-- are objects or not, a list, or something else.
pub data RawServices : Type 0 where
  absent : RawServices
  by_id : List (String × Option ServiceJson) → RawServices
  listed : List ServiceJson → RawServices
  neither : RawServices

-- data.setdefault("service_id", str(key))
abbrev with_id : String → ServiceJson → ServiceJson
with_id key item = record item {
  service_id = if is_none item.service_id then some key else item.service_id;
}

unfoldable pub items_by_id : List (String × Option ServiceJson) → Result (List ServiceJson)
items_by_id [] = ok []
items_by_id ((key, none) ∷ rest) =
    value_error "routing_policy.pipeline_services values must be objects"
items_by_id ((key, some item) ∷ rest) = items_by_id rest >>= λ items. ok (with_id key item ∷ items)

unfoldable pub service_items : RawServices → Result (List ServiceJson)
unfolding items_by_id
service_items absent = ok []
service_items (by_id raw) = items_by_id raw
service_items (listed items) = ok items
service_items neither = value_error "routing_policy.pipeline_services must be an object or list"

-- The loop; `services` are those already read, in order.
unfoldable pub add_services :
    Strings
    → (known_node_ids : List String) → List ServiceJson
    → (services : List PipelineService) → Result (List PipelineService)
add_services strings known [] services = ok services
add_services strings known (item ∷ items) services = from_json strings item known >>= λ service.
    raise_if (any (λ (s : PipelineService). s.service_id == service.service_id) services)
      "duplicate pipeline service_id"
    >> (raise_if (any (λ (s : PipelineService). s.profile_id == service.profile_id) services)
          "profile is assigned to multiple pipeline services"
        >> add_services strings known items (services ++ service ∷ []))

unfoldable pub load_pipeline_services :
    Strings → RawServices → (known_node_ids : List String) → Result (List PipelineService)
unfolding service_items add_services
load_pipeline_services strings raw known =
    service_items raw >>= λ items. add_services strings known items []

-- No later service has the id or the profile of an earlier one.
pub Distinct : List PipelineService → Type 0
Distinct [] = Unit {0}
Distinct (s ∷ rest) =
    All (λ (t : PipelineService). (s.service_id ≢ t.service_id) × (s.profile_id ≢ t.profile_id))
      rest
    × Distinct rest

Distinct-append :
    (services : List PipelineService) (s : PipelineService)
    → Distinct services
    → any (λ (t : PipelineService). t.service_id == s.service_id) services ≡ false
    → any (λ (t : PipelineService). t.profile_id == s.profile_id) services ≡ false
    → Distinct (services ++ s ∷ [])
unfolding Distinct
Distinct-append [] s d ids profiles = (tt, tt)
Distinct-append (t ∷ rest) s d ids profiles = (
  All-append _ rest (s ∷ []) d.0 (
    (
      ne_of-== t.service_id s.service_id (ground (arith, ids)),
      ne_of-== t.profile_id s.profile_id (ground (arith, profiles)),
    ),
    tt,
  ),
  Distinct-append rest s d.1 (ground (arith, ids)) (ground (arith, profiles)),
)

add_services-Distinct :
    (strings : Strings) (known : List String) (items : List ServiceJson)
    (services answer : List PipelineService)
    → Distinct services
    → All (IsService known) services
    → add_services strings known items services ≡ ok answer
    → Distinct answer × All (IsService known) answer
unfolding add_services
add_services-Distinct strings known [] services answer d v h =
    let same_services = ok_injective h in
    subst (λ l. Distinct l × All (IsService known) l) same_services (d, v)
add_services-Distinct strings known (item ∷ items) services answer d v h =
    let (service, made, h1) = >>=-eq-ok (from_json strings item known) _ h in
    let (fresh_id, h2) = >>-eq-ok _ _ h1 in
    let (fresh_profile, h3) = >>-eq-ok _ _ h2 in
    add_services-Distinct strings known items (services ++ service ∷ []) answer
      (Distinct-append services service d (raise_if-eq-ok _ _ fresh_id)
        (raise_if-eq-ok _ _ fresh_profile))
      (All-append (IsService known) services (service ∷ []) v
        (from_json-IsService strings item known service made, tt))
      h3

-- The services that are loaded are all valid on the known nodes, and no two of them have one service
-- id or serve one profile.
pub load_pipeline_services-Distinct :
    (strings : Strings) (raw : RawServices) (known : List String) (services : List PipelineService)
    → load_pipeline_services strings raw known ≡ ok services
    → Distinct services × All (IsService known) services
unfolding load_pipeline_services Distinct
load_pipeline_services-Distinct strings raw known services h =
    let (items, _, added) = >>=-eq-ok (service_items raw) _ h in
    add_services-Distinct strings known items [] services tt tt added
