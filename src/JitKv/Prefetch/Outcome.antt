-- ===== src/JitKv/Prefetch/Outcome.antt =====
-- jit_kv.py: how a prefetch ends.
use ds4_on_spark.Prelude.{◌≡◌, String, true, false, Option, ◌⊎◌}
use ds4_on_spark.Json.{Json}
use ds4_on_spark.JitKv.Prefetch.{Setting, served, cold, raised, Strategy, Prefetched, refuses}
use ds4_on_spark.JitKv.Prefetch.Clean.{Cleaned}

-- How a prefetch may end. It is served, and the payload is as it was. Or the request goes out cold:
-- the prefetch may fail open, or the circuit refuses further ones; the payload then asks for no cached
-- keys where they are to be disabled, and is as it was where they are not. Or it raises, which it may
-- only where it must not fail open, and the payload is as it was.
pub data Dispatched (s : Setting) (payload : Json) (p : Prefetched) : Type 0 where
  warm : (r : Option Json) → p.ran ≡ served r → p.payload ≡ payload → Dispatched s payload p
  cooled_down :
      (how : Strategy) (error : String)
      → p.ran ≡ cold how error
      → (s.fail_open ≡ true) ⊎ (refuses s p.circuit ≡ true)
      → (s.disable_kv_on_cold ≡ true → Cleaned p.payload)
      → (s.disable_kv_on_cold ≡ false → p.payload ≡ payload)
      → Dispatched s payload p
  passed_on :
      (error : String)
      → p.ran ≡ raised error
      → s.fail_open ≡ false
      → p.payload ≡ payload
      → Dispatched s payload p
