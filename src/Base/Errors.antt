-- ===== src/Base/Errors.antt =====
-- Go's `error` values and the pair of a value and an error.
use Prim.Native.String.{String}
use mathlib.Core.Path.{ap, ◌≡◌, refl}
use mathlib.Core.Logic.{◌⊎◌, inl, inr}

-- `failure m` is `fmt.Errorf(m)`, `wrap m e` is `fmt.Errorf("m: %w", e)`, `canceled` is
-- `context.Canceled`. Of a formatted text the constant words are kept.
pub data Error : Type 0 where
  failure : String → Error
  wrap : String → Error → Error
  canceled : Error

-- `(a, nil)` and `(_, err)`
pub data Result {ℓ} (A : Type ℓ) : Type ℓ where
  err : Error → Result A
  ok : A → Result A

-- The next statement, behind `if err != nil { return err }`.
infixl 5 ◌>>=◌ ◌>>◌
abbrev pub ◌>>=◌ {κ μ} : {X : Type κ} {Y : Type μ} → Result X → (X → Result Y) → Result Y
err x >>= next = err x
ok v >>= next = next v

abbrev pub ◌>>◌ {κ} : {X : Type κ} → Result (Unit {0}) → Result X → Result X
first >> rest = first >>= λ _. rest

-- `if err != nil { return fmt.Errorf("m: %w", err) }`
abbrev pub context {ℓ} : {A : Type ℓ} → String → Result A → Result A
context m (ok a) = ok a
context m (err e) = err (wrap m e)

pub Result-cases {ℓ} :
    {A : Type ℓ} (r : Result A) → ((a : A) × (r ≡ ok a)) ⊎ ((e : Error) × (r ≡ err e))
Result-cases (ok a) = inl (a, refl)
Result-cases (err e) = inr (e, refl)

pub context-eq-ok {ℓ} :
    {A : Type ℓ} (m : String) (r : Result A) {a : A} → context m r ≡ ok a → r ≡ ok a
context-eq-ok m (ok a) h = h
context-eq-ok m (err e) h = cc

pub ok_inj {ℓ} : {A : Type ℓ} {a b : A} → ok a ≡ ok b → a ≡ b
ok_inj {a = a} h = ap (λ r. elim r [ ok x ↦ x | err e ↦ a ]) h
