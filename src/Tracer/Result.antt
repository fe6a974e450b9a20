-- ===== src/Tracer/Result.antt =====
-- The exceptions of scripts/trace_full_array_path.py as values.
use core_from_home.Base.{Bool, true, false, ◌≡◌, refl, ap, ◌∙◌}

-- `key_error` and `index_error` are Python's own; the others are the ValueErrors, in their order.
pub data Error : Type 0 where
  key_error index_error out_of_fuel : Error
  trailing_tokens alias_width duplicate_wire memory_object not_one_module : Error
  output_not_scalar multiple_drivers four_inputs no_ff_output ff_width ff_drivers : Error
  unsupported_cell wire_not_found bit_outside no_matching combinational_cycle no_path : Error

pub data Result {ℓ} (Value : Type ℓ) : Type ℓ where
  err : Error → Result Value
  ok : Value → Result Value

pub ok_injective {ℓ} : {A : Type ℓ} {a b : A} → ok a ≡ ok b → a ≡ b
ok_injective h = cc

-- `if not b: raise e`
abbrev pub require : Bool → Error → Result (Unit {0})
require false error = err error
require true error = ok tt

-- A statement, and what follows it unless it raises.
infixl 5 ◌>>=◌
abbrev pub ◌>>=◌ {ℓ κ} :
    {Before : Type ℓ} {After : Type κ} → Result Before → (Before → Result After) → Result After
err error >>= next = err error
ok value >>= next = next value

infixl 5 ◌>>◌
abbrev pub ◌>>◌ {κ} : {After : Type κ} → Result (Unit {0}) → Result After → Result After
statement >> next = statement >>= λ done. next

-- What ran before a value.
pub >>=-ok {ℓ κ} :
    {Before : Type ℓ} {After : Type κ} (statement : Result Before) (next : Before → Result After)
    {value : After}
    → (statement >>= next) ≡ ok value
    → (before : Before) × (statement ≡ ok before) × (next before ≡ ok value)
>>=-ok (err error) next h = cc
>>=-ok (ok before) next h = (before, refl, h)

pub require-ok {ℓ} :
    {B : Type ℓ} (t : Bool) (e : Error) (k : Result B) {b : B}
    → (require t e >> k) ≡ ok b
    → (t ≡ true) × (k ≡ ok b)
require-ok true e k h = (refl, h)
require-ok false e k h = cc

pub err-ne-ok {ℓ} : {A : Type ℓ} {e : Error} {a : A} → err e ≡ ok a → ⊥
err-ne-ok h = cc

-- What a computation with the same values does.
pub >>=-map {ℓ κ} :
    {A : Type ℓ} {B : Type κ} (m m' : Result A) (f f' : A → Result B) {b : B}
    → ((a : A) → m ≡ ok a → m' ≡ ok a)
    → ((a : A) → f a ≡ ok b → f' a ≡ ok b)
    → (m >>= f) ≡ ok b
    → (m' >>= f') ≡ ok b
>>=-map (ok a) m' f f' p q h = ap (λ k. k >>= f') (p a refl) ∙ q a h
>>=-map (err e) m' f f' p q h = cc
