-- ===== src/Base/Bytes.antt =====
-- Lists of bytes: big-endian numbers, as encoding/binary reads them, slices, and hexadecimal text, as
-- encoding/hex writes it. A byte is a number below 256.
use Prim.Native.Char.{Char}
use Prim.Native.Nat.{ℕ, zero, suc, ◌+◌, ◌-◌, ◌*◌, ◌/◌, ◌%◌, ◌^◌, ◌<◌}
use Prim.Native.String.{String}
use mathlib.Core.List.{List, [], ◌∷◌, ◌++◌}
use mathlib.Core.Logic.{◌≢◌}
use mathlib.Core.Path.{◌≡◌, refl, ◌∙◌}
use native.Mathlib.Nat.{pow-suc}
use native.Mathlib.Omega.{arith}
use akave_crosschain_archive.Base.Lists.{length, take, drop, length-append}
use akave_crosschain_archive.Base.Tests.{◌==◌, if◌then◌else◌}
use akave_crosschain_archive.Base.Decimal.{digit_char}

abbrev pub Bytes : Type 0
Bytes = List ℕ

-- `xs[a:b]`, within the bounds of `xs`
abbrev pub slice : ℕ → ℕ → Bytes → Bytes
slice a b xs = take (b - a) (drop a xs)

-- `binary.BigEndian`: the bytes read so far are `n`.
unfoldable pub read_from : ℕ → Bytes → ℕ
read_from n [] = n
read_from n (b ∷ bs) = read_from (n * 256 + b) bs

abbrev pub big_endian : Bytes → ℕ
big_endian = read_from 0

-- The last `count` bytes of a number, the highest first.
unfoldable pub to_bytes : ℕ → ℕ → Bytes
to_bytes zero n = []
to_bytes (suc count) n = to_bytes count (n / 256) ++ (n % 256 ∷ [])

abbrev pub hex_digit : ℕ → Char
hex_digit n =
    if n == 10
    then "a"
    else if n == 11
    then "b"
    else if n == 12
    then "c"
    else if n == 13
    then "d"
    else if n == 14
    then "e"
    else if n == 15
    then "f"
    else digit_char n

-- `hex.EncodeToString`
unfoldable pub hex_text : Bytes → String
hex_text [] = ""
hex_text (b ∷ bs) = String.◌∷◌ (hex_digit (b / 16)) (String.◌∷◌ (hex_digit (b % 16)) (hex_text bs))

-- `"0x" + hex.EncodeToString(bs)`
abbrev pub prefixed_hex : Bytes → String
prefixed_hex bs = String.◌∷◌ "0" (String.◌∷◌ "x" (hex_text bs))

pub length-to_bytes : (count n : ℕ) → length (to_bytes count n) ≡ count
unfolding to_bytes
length-to_bytes zero n = refl
length-to_bytes (suc count) n =
    length-append (to_bytes count (n / 256)) (n % 256 ∷ [])
    ∙ omega (arith, length-to_bytes count (n / 256))

read_from-append : (n : ℕ) (xs ys : Bytes) → read_from n (xs ++ ys) ≡ read_from (read_from n xs) ys
unfolding read_from
read_from-append n [] ys = refl
read_from-append n (x ∷ xs) ys = read_from-append (n * 256 + x) xs ys

-- The bytes of a number that fits are read back as the number.
pub big_endian-to_bytes : (count n : ℕ) → n < 256 ^ count → big_endian (to_bytes count n) ≡ n
unfolding to_bytes read_from
big_endian-to_bytes zero n h = omega arith
big_endian-to_bytes (suc count) n h =
    let power = pow-suc 256 count in
    let small : n / 256 < 256 ^ count = omega arith in
    read_from-append 0 (to_bytes count (n / 256)) (n % 256 ∷ [])
    ∙ rw (big_endian-to_bytes count (n / 256) small) (omega arith)

-- A text that begins with a character is not empty.
pub cons_named : (c : Char) (s : String) → String.◌∷◌ c s ≢ ""
cons_named c s e = cc
