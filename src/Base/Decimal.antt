-- ===== src/Base/Decimal.antt =====
-- Decimal text of unsigned 64-bit numbers: `fmt.Sprintf("%d", n)` and `strconv.ParseUint(s, 10, 64)`
-- of Go's standard library, as the sources use them.
use Prim.Native.Char.{Char, code}
use Prim.Native.Nat.{ℕ, zero, suc, ◌+◌, ◌-◌, ◌*◌, ◌/◌, ◌%◌, ◌^◌, ◌<◌}
use Prim.Native.String.{String}
use mathlib.Core.Path.{◌≡◌, refl, ap, ◌∙◌}
use mathlib.Core.Bool.{false, ◌||◌}
use mathlib.Core.Logic.{inl, inr}
use native.Mathlib.Omega.{arith}
use akave_crosschain_archive.Base.Errors.{failure, Result, ok, err}
use akave_crosschain_archive.Base.Tests.{ltb, leb, ◌==◌, if◌then◌else◌, Bool-cases}

-- What ParseUint returns: on an error the number is 0 (syntax) or the largest one (range).
pub data Parsed : Type 0 where
  number : ℕ → Parsed
  bad_syntax : Parsed
  out_of_range : Parsed

abbrev pub max_uint64 : ℕ
max_uint64 = 2 ^ 64 - 1

-- The number that is returned, whether or not there is an error.
abbrev pub value_of : Parsed → ℕ
value_of (number n) = n
value_of bad_syntax = 0
value_of out_of_range = max_uint64

abbrev pub to_result : Parsed → Result ℕ
to_result (number n) = ok n
to_result bad_syntax = err (failure "invalid syntax")
to_result out_of_range = err (failure "value out of range")

-- `cutoff` is the least number that overflows when multiplied by ten.
abbrev cutoff : ℕ
cutoff = max_uint64 / 10 + 1

unfoldable pub parse_loop : String → ℕ → Parsed
parse_loop String.[] n = number n
parse_loop (String.◌∷◌ c s) n =
    let rest = parse_loop s (n * 10 + (code c - b'0')) in
    if ltb (code c) b'0' || ltb b'9' (code c)
    then bad_syntax
    else if leb cutoff n || ltb max_uint64 (n * 10 + (code c - b'0'))
    then out_of_range
    else rest

unfoldable pub parse_uint : String → Parsed
unfolding parse_loop
parse_uint String.[] = bad_syntax
parse_uint (String.◌∷◌ c s) = parse_loop (String.◌∷◌ c s) 0

parse_loop-nil : (n : ℕ) → parse_loop "" n ≡ number n
unfolding parse_loop
parse_loop-nil n = refl

abbrev pub digit_char : ℕ → Char
digit_char zero = "0"
digit_char (suc zero) = "1"
digit_char (suc (suc zero)) = "2"
digit_char (suc (suc (suc zero))) = "3"
digit_char (suc (suc (suc (suc zero)))) = "4"
digit_char (suc (suc (suc (suc (suc zero))))) = "5"
digit_char (suc (suc (suc (suc (suc (suc zero)))))) = "6"
digit_char (suc (suc (suc (suc (suc (suc (suc zero))))))) = "7"
digit_char (suc (suc (suc (suc (suc (suc (suc (suc zero)))))))) = "8"
digit_char (suc (suc (suc (suc (suc (suc (suc (suc _)))))))) = "9"

unfoldable pub print_loop : ℕ → ℕ → String → String
print_loop zero n acc = acc
print_loop (suc fuel) n acc =
    let rest = print_loop fuel (n / 10) (String.◌∷◌ (digit_char (n % 10)) acc) in
    if n / 10 == 0 then String.◌∷◌ (digit_char (n % 10)) acc else rest

-- A number below 2 ^ 64 has at most 20 digits, and each round writes one.
unfoldable pub print_uint : ℕ → String
print_uint n = print_loop 20 n ""

code-digit_char : (d : ℕ) → d < 10 → code (digit_char d) ≡ b'0' + d
code-digit_char zero h = refl
code-digit_char (suc zero) h = refl
code-digit_char (suc (suc zero)) h = refl
code-digit_char (suc (suc (suc zero))) h = refl
code-digit_char (suc (suc (suc (suc zero)))) h = refl
code-digit_char (suc (suc (suc (suc (suc zero))))) h = refl
code-digit_char (suc (suc (suc (suc (suc (suc zero)))))) h = refl
code-digit_char (suc (suc (suc (suc (suc (suc (suc zero))))))) h = refl
code-digit_char (suc (suc (suc (suc (suc (suc (suc (suc zero)))))))) h = refl
code-digit_char (suc (suc (suc (suc (suc (suc (suc (suc (suc zero))))))))) h = refl
code-digit_char (suc (suc (suc (suc (suc (suc (suc (suc (suc (suc n)))))))))) h =
    absurd (omega arith)

-- Reading one more digit.
parse_loop-digit :
    (m d : ℕ) (s : String)
    → d < 10
    → m * 10 + d < 2 ^ 64
    → parse_loop (String.◌∷◌ (digit_char d) s) m ≡ parse_loop s (m * 10 + d)
unfolding parse_loop
parse_loop-digit m d s h k =
    let e₁ : 48 + d - 48 ≡ d = omega arith in
    let t₁ : ltb (48 + d) 48 ≡ false = ground arith in
    let t₂ : ltb 57 (48 + d) ≡ false = ground arith in
    let t₃ : leb cutoff m ≡ false = ground arith in
    let t₄ : ltb max_uint64 (m * 10 + d) ≡ false = ground arith in
    rw (code-digit_char d h, e₁, t₁, t₂, t₃, t₄) refl

parse_loop-print_loop :
    (fuel n : ℕ) (acc : String)
    → 0 < fuel
    → n < 10 ^ fuel
    → n < 2 ^ 64
    → parse_loop (print_loop fuel n acc) 0 ≡ parse_loop acc n
unfolding print_loop
parse_loop-print_loop zero n acc f h k = absurd (omega arith)
parse_loop-print_loop (suc fuel) n acc f h k = elim (Bool-cases (n / 10 == 0)) [
  | inl last ↦
      let small : n / 10 ≡ 0 = ground arith in
      rw last (
        parse_loop-digit 0 (n % 10) acc (omega arith) (omega arith)
        ∙ ap (parse_loop acc) (omega arith))
  | inr more ↦ rw more (
      parse_loop-print_loop fuel (n / 10) _ (ground arith) (ground arith) (omega arith)
      ∙ parse_loop-digit (n / 10) (n % 10) acc (omega arith) (omega arith)
      ∙ ap (parse_loop acc) (omega arith))
]

print_loop-cons :
    (fuel n : ℕ) (d : Char) (acc : String)
    → (c : Char) × (s : String) × (print_loop fuel n (String.◌∷◌ d acc) ≡ String.◌∷◌ c s)
unfolding print_loop
print_loop-cons zero n d acc = (d, acc, refl)
print_loop-cons (suc fuel) n d acc = elim (Bool-cases (n / 10 == 0)) [
  | inl last ↦ (digit_char (n % 10), String.◌∷◌ d acc, rw last refl)
  | inr more ↦
      let (c, s, e) = print_loop-cons fuel (n / 10) (digit_char (n % 10)) (String.◌∷◌ d acc) in
      (c, s, rw more e)
]

print_loop-shape :
    (fuel n : ℕ) → (c : Char) × (s : String) × (print_loop (suc fuel) n "" ≡ String.◌∷◌ c s)
unfolding print_loop
print_loop-shape fuel n = elim (Bool-cases (n / 10 == 0)) [
  | inl last ↦ (digit_char (n % 10), "", rw last refl)
  | inr more ↦
      let (c, s, e) = print_loop-cons fuel (n / 10) (digit_char (n % 10)) "" in (c, s, rw more e)
]

parse_uint_cons :
    (c : Char) (s : String) → parse_uint (String.◌∷◌ c s) ≡ parse_loop (String.◌∷◌ c s) 0
unfolding parse_uint
parse_uint_cons c s = refl

-- Parsing what was printed gives the number back.
pub parse_uint-print_uint : (n : ℕ) → n < 2 ^ 64 → parse_uint (print_uint n) ≡ number n
unfolding print_uint
parse_uint-print_uint n h =
    let (c, s, e) = print_loop-shape 19 n in
    let read = parse_loop-print_loop 20 n "" (omega arith) (omega arith) h in
    rw e (parse_uint_cons c s) ∙ (rw e at read) ∙ parse_loop-nil n
