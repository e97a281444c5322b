-- ===== src/Normalizer/Numbers.antt =====
-- The numbers that decoders print and the normalizer reads.
use akave_crosschain_archive.Base.{
  ℕ, ◌<◌, ◌^◌, ◌≡◌, refl, sym, ap, ◌∙◌, String, false, arith, str_eq, eq_iff, inl, inr, Bool-cases,
  ok,
}
use akave_crosschain_archive.Base.Decimal.{
  number, bad_syntax, parse_uint, print_uint, parse_uint-print_uint,
}
use akave_crosschain_archive.Normalizer.{parse_uint64}

parse_uint-empty : parse_uint "" ≡ bad_syntax
unfolding parse_uint
parse_uint-empty = refl

number_named : (s : String) (n : ℕ) → parse_uint s ≡ number n → str_eq s "" ≡ false
number_named s n h = elim (Bool-cases (str_eq s "")) [
  | inr named ↦ named
  | inl empty ↦
      let nothing = (eq_iff s "").0 empty in
      let clash : number n ≡ bad_syntax = sym h ∙ ap parse_uint nothing ∙ parse_uint-empty in
      absurd (ground (arith, clash))
]

-- A number that a decoder prints with `%d` is read back by the normalizer, if it is below 2^64.
pub parse_uint64-print_uint : (n : ℕ) → n < 2 ^ 64 → parse_uint64 (print_uint n) ≡ ok n
unfolding parse_uint64
parse_uint64-print_uint n h =
    let read = parse_uint-print_uint n h in rw (number_named (print_uint n) n read, read) refl

pub print_uint_named : (n : ℕ) → n < 2 ^ 64 → str_eq (print_uint n) "" ≡ false
print_uint_named n h = number_named (print_uint n) n (parse_uint-print_uint n h)
