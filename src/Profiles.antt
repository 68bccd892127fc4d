-- ===== src/Profiles.antt =====
-- v2/src/ds4_infer/profiles.py: the registry of model profiles.
pub mod Unambiguous
pub mod Choice
pub mod Tests
use ds4_on_spark.Prelude.{
  ℕ, String, Bool, true, false, not, ◌&&◌, ◌||◌, Option, none, some, List, [], ◌∷◌, ◌++◌, map, any,
  length, ltb, ◌==◌, nat-Eq, string-Eq, if◌then◌else◌, Result, ok, value_error, raise_if, ◌>>=◌,
  ◌>>◌, head?,
}
use ds4_on_spark.Prelude.Int.{ℤ, pos, ltb_ℤ, int-Eq}
use ds4_on_spark.Json.{Json, dict, get}
use ds4_on_spark.Sql.{select, order_by}

pub record ModelProfile : Type 0 where
  pub profile_id : String
  pub model_id : String
  pub backend : String
  pub runtime_contract_id : Option String
  pub capability_classes : List String
  pub supported_job_classes : List String
  pub supports_chat : Bool
  pub supports_completion : Bool
  pub supports_thinking : Bool
  pub production_eligible : Bool
  pub default_for : List String
  pub quality : Json
  pub performance : Json
  pub routing : Json

-- Python's int(x) and float(x) of a JSON value, the float in units of a fixed size; `<` on strings.
pub record Numbers : Type 0 where
  pub int_of : Json → ℤ
  pub float_of : Json → ℤ
  pub text_before : String → String → Bool

-- `x in xs`
abbrev pub elem : String → List String → Bool
elem x = any λ y. y == x

-- isinstance(value, str) and value
abbrev named : Option Json → List String
named (some (Json.str s)) = if s == "" then [] else s ∷ []
named _ = []

-- dict.fromkeys
abbrev pub unique : List String → List String
unique [] = []
unique (x ∷ xs) = x ∷ select (λ y. not (y == x)) (unique xs)

unfoldable pub profile_aliases : ModelProfile → List String
profile_aliases p =
    let own = λ (k : String). named (get p.routing k) in
    let pipeline : Json = elim (get p.routing "pipeline") [ some d ↦ d | none ↦ Json.null ] in
    let inner = λ (k : String). named (get pipeline k) in
    unique (
      own "pipeline_service_id"
      ++ (own "service_id"
          ++ (own "served_model_name"
              ++ (own "runner_model_id"
                  ++ (inner "service_id"
                      ++ (inner "served_model_name" ++ inner "runner_model_id"))))))

-- `_by_alias` and `_ambiguous_aliases`.
pub record Aliases : Type 0 where
  pub by_alias : List (String × ModelProfile)
  pub ambiguous : List String

abbrev pub find_alias : String → List (String × ModelProfile) → Option ModelProfile
find_alias a [] = none
find_alias a ((b, p) ∷ rest) = if b == a then some p else find_alias a rest

abbrev pub drop_alias : String → List (String × ModelProfile) → List (String × ModelProfile)
drop_alias a [] = []
drop_alias a ((b, p) ∷ rest) = if b == a then drop_alias a rest else (b, p) ∷ drop_alias a rest

-- The body of the two loops.
unfoldable pub add_alias : Aliases → String × ModelProfile → Aliases
add_alias st (alias, profile) =
    if alias == profile.profile_id || elem alias st.ambiguous
    then st
    else elim (find_alias alias st.by_alias) [
      | none ↦ record st { by_alias = (alias, profile) ∷ st.by_alias }
      | some previous ↦
          if previous.profile_id == profile.profile_id
          then st
          else record { by_alias = drop_alias alias st.by_alias; ambiguous = alias ∷ st.ambiguous }
    ]

-- The pairs that the loops visit, in order.
unfoldable pub alias_pairs : List ModelProfile → List (String × ModelProfile)
alias_pairs [] = []
alias_pairs (p ∷ rest) = map (λ a. (a, p)) (profile_aliases p) ++ alias_pairs rest

unfoldable pub add_aliases : Aliases → List (String × ModelProfile) → Aliases
add_aliases st [] = st
add_aliases st (x ∷ rest) = add_aliases (add_alias st x) rest

pub record ProfileRegistry : Type 0 where
  pub profiles : List ModelProfile
  pub aliases : Aliases

abbrev pub has_profile : String → List ModelProfile → Bool
has_profile id = any λ p. p.profile_id == id

abbrev has_duplicate : List ModelProfile → Bool
has_duplicate [] = false
has_duplicate (p ∷ rest) = has_profile p.profile_id rest || has_duplicate rest

-- ProfileRegistry(profiles)
unfoldable pub registry : List ModelProfile → Result ProfileRegistry
unfolding alias_pairs add_aliases
registry profiles =
    raise_if (length profiles == 0) "at least one model profile is required"
    >> raise_if (has_duplicate profiles) "duplicate profile_id in registry"
    >> ok (record {
      profiles = profiles;
      aliases = add_aliases (record { by_alias = []; ambiguous = [] }) (alias_pairs profiles);
    })

abbrev pub find_profile : String → List ModelProfile → Option ModelProfile
find_profile id [] = none
find_profile id (p ∷ rest) = if p.profile_id == id then some p else find_profile id rest

unfoldable pub get_profile : ProfileRegistry → String → Result ModelProfile
get_profile r id = elim (find_profile id r.profiles) [
  | some p ↦ ok p
  | none ↦
      if elem id r.aliases.ambiguous
      then value_error "ambiguous model profile alias"
      else elim (find_alias id r.aliases.by_alias) [
        | some p ↦ ok p
        | none ↦ value_error "unknown model profile"
      ]
]

unfoldable pub check_profile_support :
    ModelProfile → (chat : Bool) (job_class : String) → Result (Unit {0})
check_profile_support p chat job_class =
    raise_if (not (elem job_class p.supported_job_classes)) "profile does not support job_class"
    >> raise_if (chat && not p.supports_chat) "profile does not support chat mode"
    >> raise_if (not chat && not p.supports_completion) "profile does not support completion mode"

-- Whether a profile may serve a request that names a capability.
abbrev pub may_serve :
    (capability : String) (chat : Bool) (job_class : String) → ModelProfile → Bool
may_serve capability chat job_class p =
    p.production_eligible
    && (elem capability p.capability_classes
        && (elem job_class p.supported_job_classes
            && (chat && p.supports_chat || not chat && p.supports_completion)))

abbrev number_at : (Json → ℤ) → Option Json → ℤ → ℤ
number_at conv none default = default
number_at conv (some j) default = conv j

-- `_routing_rank`; a latency that is missing is as large as a million seconds.
unfoldable pub rank : Numbers → ModelProfile → ℤ
rank numbers p = number_at numbers.int_of (get p.routing "rank") (pos 1000)

unfoldable pub latency : Numbers → ModelProfile → ℤ
latency numbers p = elim (get p.performance "p95_latency_s") [
  | some j ↦ numbers.float_of j
  | none ↦
      number_at numbers.float_of (get p.performance "latency_rank")
        (numbers.float_of (Json.real "1000000.0"))
]

unfoldable pub ranked_before : Numbers → ModelProfile → ModelProfile → Bool
unfolding rank latency
ranked_before numbers p q =
    ltb_ℤ (rank numbers p) (rank numbers q)
    || rank numbers p == rank numbers q
      && (ltb_ℤ (latency numbers p) (latency numbers q)
          || latency numbers p == latency numbers q
            && numbers.text_before p.profile_id q.profile_id)

abbrev pub or_raise {ℓ} : {A : Type ℓ} → String → Option A → Result A
or_raise message none = value_error message
or_raise message (some a) = ok a

-- `model_pin`, where it is there and not empty, is its profile_id; none stands for a missing one.
unfoldable pub resolve :
    Numbers
    → ProfileRegistry
    → (capability : Option String) (chat : Bool) (job_class : String)
    → (model_pin : Option (Option String)) → Result ModelProfile
unfolding ranked_before
resolve numbers r capability chat job_class (some none) =
    value_error "model_pin.profile_id is required"
resolve numbers r capability chat job_class (some (some id)) =
    raise_if (id == "") "model_pin.profile_id is required"
    >> (get_profile r id >>= λ p. check_profile_support p chat job_class >> ok p)
resolve numbers r none chat job_class none =
    value_error "capability is required when model_pin is not provided"
resolve numbers r (some capability) chat job_class none =
    let candidates = select (may_serve capability chat job_class) r.profiles in
    let defaults = select (λ p. elem capability p.default_for) candidates in
    let listed = if length defaults == 0 then candidates else defaults in
    raise_if (capability == "") "capability is required when model_pin is not provided"
    >> or_raise "no production profile supports the request"
        (head? (order_by (ranked_before numbers) listed))

-- A profile as the file has it; a missing key is none.
pub record ProfileJson : Type 0 where
  pub profile_id : Option String
  pub model_id : Option String
  pub backend : Option String
  pub runtime_contract_id : Option String
  pub capability_classes : Option (List String)
  pub supported_job_classes : Option (List String)
  pub supports_chat : Option Bool
  pub supports_completion : Option Bool
  pub supports_thinking : Option Bool
  pub production_eligible : Option Bool
  pub default_for : Option (List String)
  pub quality : Option Json
  pub performance : Option Json
  pub routing : Option Json

abbrev need {ℓ} : {A : Type ℓ} → Option A → Result A
need none = value_error "model profile missing fields"
need (some a) = ok a

abbrev or_else {ℓ} : {A : Type ℓ} → Option A → A → A
or_else none a = a
or_else (some b) a = b

-- `default_for` is a field of `routing`.
unfoldable pub profile_from_json : ProfileJson → Result ModelProfile
profile_from_json item = do
  profile_id ← need item.profile_id
  model_id ← need item.model_id
  backend ← need item.backend
  capability_classes ← need item.capability_classes
  supported_job_classes ← need item.supported_job_classes
  supports_chat ← need item.supports_chat
  supports_completion ← need item.supports_completion
  production_eligible ← need item.production_eligible
  ok (record {
    profile_id = profile_id;
    model_id = model_id;
    backend = backend;
    runtime_contract_id = elim item.runtime_contract_id [
      | none ↦ none
      | some id ↦ if id == "" then none else some id
    ];
    capability_classes = capability_classes;
    supported_job_classes = supported_job_classes;
    supports_chat = supports_chat;
    supports_completion = supports_completion;
    supports_thinking = or_else item.supports_thinking false;
    production_eligible = production_eligible;
    default_for = or_else item.default_for [];
    quality = or_else item.quality (dict []);
    performance = or_else item.performance (dict []);
    routing = or_else item.routing (dict []);
  })
