-- ===== src/Profiles/Tests.antt =====
-- profiles.py at concrete inputs: two profiles that share an alias.
use ds4_on_spark.Prelude.{
  String, true, false, none, some, List, [], ◌∷◌, All, In, ◌≡◌, ◌≢◌, ◌⊎◌, refl, Result, ok,
  value_error,
}
use ds4_on_spark.Prelude.Int.{pos}
use ds4_on_spark.Json.{Json, dict, get}
use ds4_on_spark.Sql.{select, order_by}
use ds4_on_spark.Profiles.{
  ModelProfile, Numbers, ProfileRegistry, elem, may_serve, alias_pairs, add_alias, registry,
  get_profile, resolve, profile_aliases, add_aliases,
}
use ds4_on_spark.Profiles.Unambiguous.{get_profile-unambiguous}
use ds4_on_spark.Profiles.Choice.{resolve-serves}

abbrev numbers : Numbers
numbers = record { int_of = λ j. pos 1; float_of = λ j. pos 2; text_before = λ a b. false }

abbrev profile : (id served : String) (default_for : List String) → ModelProfile
profile id served default_for = record {
  profile_id = id;
  model_id = "m";
  backend = "vllm";
  runtime_contract_id = none;
  capability_classes = "text" ∷ [];
  supported_job_classes = "interactive" ∷ [];
  supports_chat = true;
  supports_completion = false;
  supports_thinking = false;
  production_eligible = true;
  default_for = default_for;
  quality = dict [];
  performance = dict [];
  routing = dict (("served_model_name", Json.str served) ∷ []);
}

abbrev profiles : List ModelProfile
profiles = profile "p" "qwen" [] ∷ profile "q" "deepseek" ("text" ∷ []) ∷ []

abbrev made : Result ProfileRegistry → ProfileRegistry
made (ok r) = r
made (value_error e) = record { profiles = []; aliases = record { by_alias = []; ambiguous = [] } }

abbrev both : ProfileRegistry
both = made (registry profiles)

registers : registry profiles ≡ ok both
unfolding registry
registers = refl

by_alias : get_profile both "deepseek" ≡ ok (profile "q" "deepseek" ("text" ∷ []))
unfolding registry get_profile get profile_aliases add_alias alias_pairs add_aliases
by_alias = refl

get_profile-unambiguous_example :
    All (λ x. (x.0 ≢ "deepseek") ⊎ ("q" ≡ x.1.profile_id)) (alias_pairs profiles)
get_profile-unambiguous_example =
    get_profile-unambiguous profiles both "deepseek" (profile "q" "deepseek" ("text" ∷ []))
      registers refl by_alias

resolves :
    resolve numbers both (some "text") true "interactive" none
    ≡ ok (profile "q" "deepseek" ("text" ∷ []))
unfolding registry resolve order_by
resolves = refl

resolve-serves_example :
    In (profile "q" "deepseek" ("text" ∷ [])) both.profiles
    × (may_serve "text" true "interactive" (profile "q" "deepseek" ("text" ∷ [])) ≡ true)
    × ((elem "text" ("text" ∷ []) ≡ true)
        ⊎ (select
              (λ q. elem "text" q.default_for)
              (select (may_serve "text" true "interactive") both.profiles)
            ≡ []))
resolve-serves_example =
    resolve-serves numbers both "text" true "interactive" (profile "q" "deepseek" ("text" ∷ []))
      resolves
