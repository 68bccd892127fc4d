-- ===== src/Queue/ResultError.antt =====
-- queue.py: `_result_error`, the error text of a transport's result; and what the methods take from
-- the process and from Python's own library.
use Prim.Native.String.{◌++◌ as text_append}
use ds4_on_spark.Prelude.{
  ℕ, zero, suc, String, Bool, true, false, not, Option, none, some, ◌==◌, string-Eq, if◌then◌else◌,
}
use ds4_on_spark.Prelude.Int.{ℤ, int-Eq, pos}
use ds4_on_spark.Json
use ds4_on_spark.Json.{Json}

-- The quantum of DS4_COMPUTE_LEASE_QUANTUM_S in ticks; the text of each call of uuid.uuid4().hex;
-- str() of a whole number and of a JSON value; json.loads, none where it raises; whether the
-- literal of a float is zero; int() of a text and of a float's literal, none where it raises
-- ValueError; json.dumps with sorted keys; the hex SHA-256
-- digest of a text; the format f"{batch_id}-{n:06d}"; whether InferenceRequest.from_json takes a
-- payload; the text in the column request_json of a row, by its id, where it is not JSON.
pub record Env : Type 0 where
  pub quantum : ℕ
  pub hex : ℕ → String
  pub decimal : ℕ → String
  pub str_of : Json → String
  pub loads : String → Option Json
  pub is_zero : String → Bool
  pub int_of_text : String → Option ℤ
  pub int_of_real : String → Option ℤ
  pub dumps : Json → String
  pub sha256 : String → String
  pub numbered : String → ℕ → String
  pub request_parses : Json → Bool
  pub broken_text : String → String

-- _request_json_hash(request_json)
unfoldable pub request_json_hash : Env → String → String
request_json_hash env request_json = text_append "sha256:" (env.sha256 request_json)

-- bool(value)
abbrev pub truthy : Env → Json → Bool
truthy env Json.null = false
truthy env (Json.bool b) = b
truthy env (Json.num n) = not (n == pos 0)
truthy env (Json.real t) = not (env.is_zero t)
truthy env (Json.str s) = not (s == "")
truthy env (Json.arr Json.nil) = false
truthy env (Json.arr _) = true
truthy env (Json.obj Json.end) = false
truthy env (Json.obj _) = true

-- The value of a key, where it is there and counts as true.
abbrev pub true_field : Env → Json → String → Option Json
true_field env j k = elim (Json.get j k) [
  | none ↦ none
  | some v ↦ if truthy env v then some v else none
]

-- text[:n]
abbrev pub prefix : ℕ → String → String
prefix zero s = ""
prefix (suc n) String.[] = ""
prefix (suc n) (String.◌∷◌ c s) = String.◌∷◌ c (prefix n s)

-- The text of `output`, if that is a dict with one.
abbrev output_text : Env → Json → Option String
output_text env result = elim (Json.get result "output") [
  | none ↦ none
  | some output ↦ elim (true_field env output "text") [ none ↦ none | some t ↦ some (env.str_of t) ]
]

abbrev parsed_error : Env → String → String
parsed_error env t = elim (env.loads t) [
  | none ↦ prefix 4000 t
  | some parsed ↦ elim (true_field env parsed "error") [ none ↦ "" | some e ↦ env.str_of e ]
]

-- Only a dict has fields, so the `isinstance` tests are those of `get`.
unfoldable pub result_error : Env → Json → String
result_error env result =
    let transport : Option Json = elim (Json.get result "transport") [
      | none ↦ none
      | some t ↦ true_field env t "error"
    ] in
    elim transport [
      | some e ↦ env.str_of e
      | none ↦ elim (true_field env result "error") [
        | some e ↦ env.str_of e
        | none ↦ elim (output_text env result) [ none ↦ "" | some t ↦ parsed_error env t ]
      ]
    ]
