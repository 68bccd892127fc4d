-- ===== src/JitKv/Prefetch/Clean.antt =====
-- jit_kv.py: what `disable_strict_kv` leaves of a payload.
use ds4_on_spark.Prelude.{◌≡◌, refl, ap, ◌∙◌, String, Option, none, some, string-Eq}
use ds4_on_spark.Json.{
  Json, Fields, get, set, pop, get-pop, get-pop_other, get-set, get-set_other, drop_field,
}
use ds4_on_spark.JitKv.Prefetch.{put_extra, without_kv_cache, disable_strict_kv}

abbrev pub or_null : Option Json → Json
or_null none = Json.null
or_null (some j) = j

-- The payload carries neither the transfer parameters nor the cache of the extra body.
pub record Cleaned (payload : Json) : Type 0 where
  pub transfers : get payload "kv_transfer_params" ≡ none
  pub caches : get (or_null (get payload "extra_body")) "ds4_kv_cache" ≡ none

get-null : (k : String) → get Json.null k ≡ none
unfolding get
get-null k = refl

popped-Cleaned :
    (payload : Json) → get payload "kv_transfer_params" ≡ none → Cleaned (pop payload "extra_body")
popped-Cleaned payload h = record {
  transfers = get-pop_other payload "extra_body" "kv_transfer_params" refl ∙ h;
  caches =
      ap (λ o. get (or_null o) "ds4_kv_cache") (get-pop payload "extra_body")
      ∙ get-null "ds4_kv_cache";
}

put-Cleaned :
    (fields : Fields) (extra : Json)
    → get (Json.obj fields) "kv_transfer_params" ≡ none
    → get extra "ds4_kv_cache" ≡ none
    → Cleaned (set (Json.obj fields) "extra_body" extra)
put-Cleaned fields extra h k = record {
  transfers = get-set_other (Json.obj fields) "extra_body" "kv_transfer_params" extra refl ∙ h;
  caches = ap (λ o. get (or_null o) "ds4_kv_cache") (get-set fields "extra_body" extra) ∙ k;
}

put_extra-Cleaned :
    (fields : Fields) (extra : Json)
    → get (Json.obj fields) "kv_transfer_params" ≡ none
    → get extra "ds4_kv_cache" ≡ none
    → Cleaned (put_extra (Json.obj fields) extra)
unfolding put_extra
put_extra-Cleaned fields (Json.obj Fields.end) h k = popped-Cleaned (Json.obj fields) h
put_extra-Cleaned fields (Json.obj (Fields.field a b rest)) h k =
    put-Cleaned fields (Json.obj (Fields.field a b rest)) h k
put_extra-Cleaned fields Json.null h k = put-Cleaned fields Json.null h k
put_extra-Cleaned fields (Json.bool b) h k = put-Cleaned fields (Json.bool b) h k
put_extra-Cleaned fields (Json.num n) h k = put-Cleaned fields (Json.num n) h k
put_extra-Cleaned fields (Json.real t) h k = put-Cleaned fields (Json.real t) h k
put_extra-Cleaned fields (Json.str t) h k = put-Cleaned fields (Json.str t) h k
put_extra-Cleaned fields (Json.arr xs) h k = put-Cleaned fields (Json.arr xs) h k

without_kv_cache-Cleaned :
    (fields fs : Fields)
    → get (Json.obj fields) "kv_transfer_params" ≡ none
    → Cleaned (without_kv_cache (Json.obj fields) fs)
unfolding without_kv_cache
without_kv_cache-Cleaned fields fs h =
    put_extra-Cleaned fields (pop (Json.obj fs) "ds4_kv_cache") h
      (get-pop (Json.obj fs) "ds4_kv_cache")

no_dict-Cleaned :
    (payload : Json)
    → get payload "kv_transfer_params" ≡ none
    → get (or_null (get payload "extra_body")) "ds4_kv_cache" ≡ none
    → Cleaned payload
no_dict-Cleaned payload h k = record { transfers = h; caches = k }

-- A payload that has been disabled carries neither the transfer parameters nor the cache of the extra
-- body.
pub disable_strict_kv-Cleaned : (fields : Fields) → Cleaned (disable_strict_kv (Json.obj fields))
unfolding disable_strict_kv pop get
disable_strict_kv-Cleaned fields =
    go (drop_field "kv_transfer_params" fields) (get-pop (Json.obj fields) "kv_transfer_params")
      (get (Json.obj (drop_field "kv_transfer_params" fields)) "extra_body") refl
  where
    go :
        (rest : Fields)
        → get (Json.obj rest) "kv_transfer_params" ≡ none
        → (o : Option Json) → get (Json.obj rest) "extra_body" ≡ o
        → Cleaned (elim o as (λ _. Json) [
          | some (Json.obj fs) ↦ without_kv_cache (Json.obj rest) fs
          | _ ↦ Json.obj rest
        ])
    go rest h none e = no_dict-Cleaned (Json.obj rest) h (rw e refl)
    go rest h (some (Json.obj fs)) e = without_kv_cache-Cleaned rest fs h
    go rest h (some Json.null) e = no_dict-Cleaned (Json.obj rest) h (rw e refl)
    go rest h (some (Json.bool b)) e = no_dict-Cleaned (Json.obj rest) h (rw e refl)
    go rest h (some (Json.num n)) e = no_dict-Cleaned (Json.obj rest) h (rw e refl)
    go rest h (some (Json.real t)) e = no_dict-Cleaned (Json.obj rest) h (rw e refl)
    go rest h (some (Json.str t)) e = no_dict-Cleaned (Json.obj rest) h (rw e refl)
    go rest h (some (Json.arr xs)) e = no_dict-Cleaned (Json.obj rest) h (rw e refl)
