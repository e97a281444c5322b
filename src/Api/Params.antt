-- ===== src/Api/Params.antt =====
-- Query parameters and replies of the handlers of internal/api. A parameter that is missing reads as
-- the empty text.
use Prim.Native.Char.{code}
use akave_crosschain_archive.Base.{
  ℕ, zero, suc, ◌^◌, String, Bool, true, false, Option, none, some, ltb, ◌==◌, str_eq,
  if◌then◌else◌, ◌||◌, Result, ok, err, failure, ◌>>=◌,
}
use akave_crosschain_archive.Base.Decimal.{
  Parsed, number, bad_syntax, out_of_range, parse_uint, to_result,
}
use akave_crosschain_archive.Base.Int.{ℤ, pos, negsuc}

abbrev pub Params : Type 0
Params = String → String

-- `writeJSON(w, status, v)` and `writeError(w, status, msg)`
pub data Response {ℓ} (A : Type ℓ) : Type ℓ where
  reply : ℕ → A → Response A
  refuse : ℕ → String → Response A

-- The signed number of an absolute value that was read, within an int64.
abbrev pub with_sign : Bool → Parsed → Result ℤ
with_sign negative bad_syntax = err (failure "invalid syntax")
with_sign negative out_of_range = err (failure "value out of range")
with_sign true (number zero) = ok (pos 0)
with_sign true (number (suc n)) =
    if ltb n (2 ^ 63) then ok (negsuc n) else err (failure "value out of range")
with_sign false (number n) =
    if ltb n (2 ^ 63) then ok (pos n) else err (failure "value out of range")

-- `strconv.ParseInt(s, 10, 64)` and `strconv.Atoi(s)`
unfoldable pub parse_int64 : String → Result ℤ
parse_int64 String.[] = err (failure "invalid syntax")
parse_int64 (String.◌∷◌ c s) =
    if code c == b'-'
    then with_sign true (parse_uint s)
    else if code c == b'+'
    then with_sign false (parse_uint s)
    else with_sign false (parse_uint (String.◌∷◌ c s))

-- `ParseUint64Param`
unfoldable pub parse_uint64_param : String → Result (Option ℕ)
parse_uint64_param s =
    if str_eq s "" then ok none else (to_result (parse_uint s) >>= λ n. ok (some n))

-- `ParseInt64Param`
unfoldable pub parse_int64_param : String → Result (Option ℤ)
parse_int64_param s = if str_eq s "" then ok none else (parse_int64 s >>= λ n. ok (some n))

-- `if err != nil { writeError(w, status, msg); return }`
unfoldable pub or_refuse {ℓ κ} :
    {A : Type ℓ} {B : Type κ} → ℕ → String → Result A → (A → Response B) → Response B
or_refuse status msg (err e) next = refuse status msg
or_refuse status msg (ok a) next = next a

-- `if l < 1 { … }; if l > 100 { l = 100 }`
abbrev pub clamp_limit : ℤ → Result ℕ
clamp_limit (negsuc n) = err (failure "limit")
clamp_limit (pos n) = if n == 0 then err (failure "limit") else ok (if ltb 100 n then 100 else n)

-- The limit of a listing: 20 where there is none.
unfoldable pub limit_param : String → Result ℕ
limit_param s = if str_eq s "" then ok 20 else (parse_int64 s >>= clamp_limit)

-- `parseInt` of address_trace_handler.go: `int(v)` of a number from 2^63 on is negative.
unfoldable pub history_limit_param : String → Result ℕ
history_limit_param s =
    if str_eq s ""
    then ok 20
    else (to_result (parse_uint s) >>= λ n.
        if ltb n (2 ^ 63) then clamp_limit (pos n) else err (failure "limit"))

-- `sortOrder`
abbrev pub sort_param : String → String
sort_param s = if str_eq s "asc" || str_eq s "desc" then s else "desc"
