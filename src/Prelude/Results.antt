-- ===== src/Prelude/Results.antt =====
-- A call that may raise ValueError. The message is kept as far as the code fixes it.
use mathlib.Core.Path.{◌≡◌, refl}
use mathlib.Core.Bool.{Bool, true, false}
use Prim.Native.String.{String}

pub data Result {ℓ} (T : Type ℓ) : Type ℓ where
  ok : T → Result T
  value_error : (message : String) → Result T

infixl 5 ◌>>=◌ ◌>>◌
abbrev pub ◌>>=◌ {ℓ κ} : {S : Type ℓ} {T : Type κ} → Result S → (S → Result T) → Result T
value_error message >>= next = value_error message
ok x >>= next = next x

abbrev pub ◌>>◌ {ℓ} : {T : Type ℓ} → Result (Unit {0}) → Result T → Result T
check >> next = check >>= λ _. next

-- `if b: raise ValueError(message)`
abbrev pub raise_if : Bool → String → Result (Unit {0})
raise_if false message = ok tt
raise_if true message = value_error message

pub >>=-eq-ok {ℓ κ} :
    {S : Type ℓ} {T : Type κ} (r : Result S) (next : S → Result T) {y : T}
    → (r >>= next) ≡ ok y
    → (x : S) × (r ≡ ok x) × (next x ≡ ok y)
>>=-eq-ok (value_error message) next h = cc
>>=-eq-ok (ok x) next h = (x, refl, h)

pub >>-eq-ok {ℓ} :
    {T : Type ℓ} (c : Result (Unit {0})) (r : Result T) {y : T}
    → (c >> r) ≡ ok y
    → (c ≡ ok tt) × (r ≡ ok y)
>>-eq-ok (value_error message) r h = cc
>>-eq-ok (ok tt) r h = (refl, h)

pub raise_if-eq-ok : (b : Bool) (message : String) → raise_if b message ≡ ok tt → b ≡ false
raise_if-eq-ok true message h = cc
raise_if-eq-ok false message h = refl

pub ok_injective {ℓ} : {T : Type ℓ} {x y : T} → ok x ≡ ok y → x ≡ y
ok_injective h = cc h
