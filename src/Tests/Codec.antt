-- ===== src/Tests/Codec.antt =====
-- An encoding of records for the tests, in the place of Parquet: every field in turn, as numbers.
pub mod Records
use Prim.Native.Char.{Char, char, code}
use Prim.Native.Nat.{Ordering, compare}
use akave_crosschain_archive.Base.{
  ℕ, zero, suc, String, Option, none, some, List, [], ◌∷◌, length, ◌≡◌, refl, ap, Result, ok,
  ok_inj, err, failure,
}
use akave_crosschain_archive.Base.Bytes.{Bytes, hex_text}
use akave_crosschain_archive.Base.Int.{ℤ, pos, negsuc}
use akave_crosschain_archive.Archiver.Cycle.{Formats}
use akave_crosschain_archive.Archiver.Records.{ParquetRecord}

abbrev pub and_then : {A B : Type 0} → Option A → (A → Option B) → Option B
and_then none f = none
and_then (some a) f = f a

-- A way to write values before the bytes of others, and to read them back.
pub record Codec (A : Type 0) : Type 0 where
  pub put : A → Bytes → Bytes
  pub get : Bytes → Option (A × Bytes)
  pub get-put : (a : A) (bs : Bytes) → get (put a bs) ≡ some (a, bs)

-- The clauses of the test for a code point, by the three comparisons.
abbrev IsLess : Ordering → Type 0
IsLess Ordering.lt = Unit
IsLess Ordering.eq = ⊥
IsLess Ordering.gt = ⊥

abbrev Both : Ordering → Ordering → Type 0
Both Ordering.lt o = IsLess o
Both Ordering.eq o = ⊥
Both Ordering.gt o = ⊥

abbrev Scalar : Ordering → Ordering → Ordering → Type 0
Scalar Ordering.lt o p = Unit
Scalar Ordering.eq o p = Both o p
Scalar Ordering.gt o p = Both o p

abbrev find_less : (o : Ordering) → Option (IsLess o)
find_less Ordering.lt = some tt
find_less Ordering.eq = none
find_less Ordering.gt = none

abbrev find_pair : (o p : Ordering) → Option (Both o p)
find_pair Ordering.lt o = find_less o
find_pair Ordering.eq o = none
find_pair Ordering.gt o = none

abbrev find_scalar : (o p q : Ordering) → Option (Scalar o p q)
find_scalar Ordering.lt o p = some tt
find_scalar Ordering.eq o p = find_pair o p
find_scalar Ordering.gt o p = find_pair o p

find_less_lem : (o : Ordering) (h : IsLess o) → find_less o ≡ some h
find_less_lem Ordering.lt h = refl
find_less_lem Ordering.eq h = absurd h
find_less_lem Ordering.gt h = absurd h

find_pair_lem : (o p : Ordering) (h : Both o p) → find_pair o p ≡ some h
find_pair_lem Ordering.lt p h = find_less_lem p h
find_pair_lem Ordering.eq p h = absurd h
find_pair_lem Ordering.gt p h = absurd h

find_scalar_lem : (o p q : Ordering) (h : Scalar o p q) → find_scalar o p q ≡ some h
find_scalar_lem Ordering.lt p q h = refl
find_scalar_lem Ordering.eq p q h = find_pair_lem p q h
find_scalar_lem Ordering.gt p q h = find_pair_lem p q h

abbrev char_of : ℕ → Option Char
char_of n =
    and_then (find_scalar (compare n 55296) (compare 57343 n) (compare n 1114112))
      (λ h. some (char n h))

pub char_of-code : (c : Char) → char_of (code c) ≡ some c
char_of-code (char n h) =
    rw (find_scalar_lem (compare n 55296) (compare 57343 n) (compare n 1114112) h) refl

abbrev get_number : Bytes → Option (ℕ × Bytes)
get_number [] = none
get_number (b ∷ bs) = some (b, bs)

abbrev pub number : Codec ℕ
number = record { put = λ n bs. n ∷ bs; get = get_number; get-put = λ n bs. refl }

unfoldable pub put_text : String → Bytes → Bytes
put_text String.[] bs = 0 ∷ bs
put_text (String.◌∷◌ c s) bs = suc (code c) ∷ put_text s bs

abbrev prepend : Option Char → Option (String × Bytes) → Option (String × Bytes)
prepend none rest = none
prepend (some c) none = none
prepend (some c) (some (s, bs)) = some (String.◌∷◌ c s, bs)

unfoldable pub get_text : Bytes → Option (String × Bytes)
get_text [] = none
get_text (zero ∷ bs) = some ("", bs)
get_text (suc n ∷ bs) = prepend (char_of n) (get_text bs)

pub get_text-put_text : (s : String) (bs : Bytes) → get_text (put_text s bs) ≡ some (s, bs)
unfolding put_text get_text
get_text-put_text String.[] bs = refl
get_text-put_text (String.◌∷◌ c s) bs = rw (char_of-code c, get_text-put_text s bs) refl

abbrev pub text : Codec String
text = record { put = put_text; get = get_text; get-put = get_text-put_text }

abbrev integer_of : Option (ℕ × Bytes) → (ℕ → ℤ) → Option (ℤ × Bytes)
integer_of none sign = none
integer_of (some (n, bs)) sign = some (sign n, bs)

abbrev get_integer : Bytes → Option (ℤ × Bytes)
get_integer (zero ∷ n ∷ bs) = some (pos n, bs)
get_integer (suc b ∷ n ∷ bs) = some (negsuc n, bs)
get_integer bs = none

abbrev put_integer : ℤ → Bytes → Bytes
put_integer (pos n) bs = 0 ∷ n ∷ bs
put_integer (negsuc n) bs = 1 ∷ n ∷ bs

pub get_integer-put_integer : (z : ℤ) (bs : Bytes) → get_integer (put_integer z bs) ≡ some (z, bs)
get_integer-put_integer (pos n) bs = refl
get_integer-put_integer (negsuc n) bs = refl

abbrev pub integer : Codec ℤ
integer = record { put = put_integer; get = get_integer; get-put = get_integer-put_integer }

module _ {A : Type 0} (a : Codec A) where
  abbrev put_option : Option A → Bytes → Bytes
  put_option none bs = 0 ∷ bs
  put_option (some x) bs = 1 ∷ a.put x bs

  abbrev get_option : Bytes → Option (Option A × Bytes)
  get_option [] = none
  get_option (zero ∷ bs) = some (none, bs)
  get_option (suc n ∷ bs) = and_then (a.get bs) (λ r. some (some r.0, r.1))

  pub get_option-put_option :
      (o : Option A) (bs : Bytes) → get_option (put_option o bs) ≡ some (o, bs)
  get_option-put_option none bs = refl
  get_option-put_option (some x) bs = rw (a.get-put x bs) refl

  abbrev pub optional : Codec (Option A)
  optional = record { put = put_option; get = get_option; get-put = get_option-put_option }

  unfoldable pub put_many : List A → Bytes → Bytes
  put_many [] bs = bs
  put_many (x ∷ xs) bs = a.put x (put_many xs bs)

  abbrev add_first : A → Option (List A × Bytes) → Option (List A × Bytes)
  add_first x none = none
  add_first x (some (xs, bs)) = some (x ∷ xs, bs)

  unfoldable pub get_many : ℕ → Bytes → Option (List A × Bytes)
  get_many zero bs = some ([], bs)
  get_many (suc n) bs = and_then (a.get bs) (λ r. add_first r.0 (get_many n r.1))

  pub get_many-put_many :
      (xs : List A) (bs : Bytes) → get_many (length xs) (put_many xs bs) ≡ some (xs, bs)
  unfolding put_many get_many
  get_many-put_many [] bs = refl
  get_many-put_many (x ∷ xs) bs =
      rw (a.get-put x (put_many xs bs)) (rw (get_many-put_many xs bs) refl)

infixr 30 ◌then◌
abbrev pub ◌then◌ : {A B : Type 0} → Codec A → Codec B → Codec (A × B)
a then b = record {
  put = λ x bs. a.put x.0 (b.put x.1 bs);
  get = λ bs. and_then (a.get bs) (λ x. and_then (b.get x.1) (λ y. some ((x.0, y.0), y.1)));
  get-put = λ x bs. rw (a.get-put x.0 (b.put x.1 bs)) (rw (b.get-put x.1 bs) refl);
}
