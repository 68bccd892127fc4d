-- ===== src/Queue/Text.antt =====
-- The order of texts, by code points, as SQLite's binary collation has it on UTF-8.
use Prim.Native.Char.{code}
use ds4_on_spark.Prelude.{String, Bool, true, false, ltb, nat_eq, if◌then◌else◌}

-- a < b
unfoldable pub before : String → String → Bool
before String.[] String.[] = false
before String.[] (String.◌∷◌ d t) = true
before (String.◌∷◌ c s) String.[] = false
before (String.◌∷◌ c s) (String.◌∷◌ d t) =
    if ltb (code c) (code d) then true else if nat_eq (code c) (code d) then before s t else false
