-- ===== src/Tests/Listing.antt =====
-- Runs of the listings, with an order of texts by their characters and with page tokens in unary.
use Prim.Native.Char.{code}
use text.Mathlib.TextEquality.{Char-path}
use akave_crosschain_archive.Base.{
  ℕ, zero, suc, String, Bool, true, false, ◌&&◌, ◌||◌, ltb, ◌==◌, str_eq, if◌then◌else◌, ◌≡◌, refl,
  ap, arith, str_ne, Result, ok, err, failure,
}
use akave_crosschain_archive.Base.Bytes.{cons_named}
use akave_crosschain_archive.Api.Order.{Collation, Position}
use akave_crosschain_archive.Api.Messages.{Tokens}

unfoldable pub before : String → String → Bool
before String.[] String.[] = false
before String.[] (String.◌∷◌ d t) = true
before (String.◌∷◌ c s) String.[] = false
before (String.◌∷◌ c s) (String.◌∷◌ d t) = ltb (code c) (code d) || (code c == code d && before s t)

pub before_irreflexive : (s : String) → before s s ≡ false
unfolding before
before_irreflexive String.[] = refl
before_irreflexive (String.◌∷◌ c s) = ground (arith, before_irreflexive s)

pub before_transitive : (s t u : String) → before s t ≡ true → before t u ≡ true → before s u ≡ true
unfolding before
before_transitive String.[] String.[] u h k = cc
before_transitive String.[] (String.◌∷◌ d t) String.[] h k = cc
before_transitive String.[] (String.◌∷◌ d t) (String.◌∷◌ e u) h k = refl
before_transitive (String.◌∷◌ c s) String.[] u h k = cc
before_transitive (String.◌∷◌ c s) (String.◌∷◌ d t) String.[] h k = cc
before_transitive (String.◌∷◌ c s) (String.◌∷◌ d t) (String.◌∷◌ e u) h k =
    ground (arith, before_transitive s t u)

pub before_total : (s t : String) → before s t ≡ false → before t s ≡ false → s ≡ t
unfolding before
before_total String.[] String.[] h k = refl
before_total String.[] (String.◌∷◌ d t) h k = cc
before_total (String.◌∷◌ c s) String.[] h k = cc
before_total (String.◌∷◌ c s) (String.◌∷◌ d t) h k =
    let same : code c ≡ code d = ground arith in
    let rest : s ≡ t = before_total s t (ground arith) (ground arith) in
    λ i. String.◌∷◌ (Char-path c d same i) (rest i)

abbrev pub by_characters : Collation
by_characters = record {
  before = before;
  irreflexive = before_irreflexive;
  transitive = before_transitive;
  total = before_total;
}

-- An "a" for each unit of time, then "b", then the identifier.
unfoldable pub encode_from : ℕ → String → String
encode_from zero id = String.◌∷◌ "b" id
encode_from (suc n) id = String.◌∷◌ "a" (encode_from n id)

abbrev pub later : Result Position → Result Position
later (err e) = err e
later (ok p) = ok (record p { created_at = suc p.created_at })

unfoldable pub decode_unary : String → Result Position
decode_unary String.[] = err (failure "invalid cursor")
decode_unary (String.◌∷◌ c s) =
    if code c == 97 then later (decode_unary s) else ok (record { created_at = 0; message_id = s })

pub decode_unary-encode_from :
    (n : ℕ) (id : String)
    → decode_unary (encode_from n id) ≡ ok (record { created_at = n; message_id = id })
unfolding decode_unary encode_from
decode_unary-encode_from zero id = refl
decode_unary-encode_from (suc n) id = ap later (decode_unary-encode_from n id)

pub encode_from_named : (n : ℕ) (id : String) → str_eq (encode_from n id) "" ≡ false
unfolding encode_from
encode_from_named zero id = str_ne _ "" (cons_named _ _)
encode_from_named (suc n) id = str_ne _ "" (cons_named _ _)

abbrev pub unary : Tokens
unary = record {
  encode = λ p. encode_from p.created_at p.message_id;
  decode = decode_unary;
  decode-encode = λ p. decode_unary-encode_from p.created_at p.message_id;
  named = λ p. encode_from_named p.created_at p.message_id;
}
