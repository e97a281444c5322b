-- ===== src/Api/Handlers/Bounds.antt =====
-- What the listing handler replies, whatever it is asked and whatever the database does.
use akave_crosschain_archive.Base.{
  length-take-le, ℕ, ◌≤◌, String, Bool, true, false, List, length, ltb, str_eq, ◌≡◌, refl, ◌⊎◌, inl,
  inr, arith, Bool-cases, Result, ok, err, ok_inj, Result-cases,
}
use akave_crosschain_archive.Base.Int.{ℤ, pos, negsuc}
use akave_crosschain_archive.Database.{Db}
use akave_crosschain_archive.Types.{Message}
use akave_crosschain_archive.Api.Handlers.{MessagesListResponse, listed, list_messages_handler}
use akave_crosschain_archive.Api.Messages.{
  Tokens, MessageFilter, MessageListResult, page_limit, list_condition, sort_order_of, page_of,
  cursor_condition, query_page, list_messages,
}
use akave_crosschain_archive.Api.Order.{Collation, SortOrder}
use akave_crosschain_archive.Api.Params.{
  Params, Response, reply, refuse, or_refuse, limit_param, clamp_limit, parse_int64,
}

-- A listing of at most as many messages as were asked for, which are at most 100, with their number;
-- or a refusal as a bad request or an internal error.
abbrev pub Listing : Params → Response MessagesListResponse → Type 0
Listing q (reply status r) =
    (status ≡ 200)
    × (r.count ≡ length r.messages)
    × ((n : ℕ) × (limit_param (q "limit") ≡ ok n) × (n ≤ 100) × (length r.messages ≤ n))
Listing q (refuse status msg) = (status ≡ 400) ⊎ (status ≡ 500)

pub record IsListing (q : Params) (r : Response MessagesListResponse) : Type 0 where
  pub listing : Listing q r

-- A chain of checks, each of which may refuse.
or_refuse_rule {ℓ} :
    {A : Type ℓ} (q : Params) (status : ℕ) (msg : String) (r : Result A)
    (next : A → Response MessagesListResponse)
    → (status ≡ 400) ⊎ (status ≡ 500)
    → ((a : A) → r ≡ ok a → IsListing q (next a))
    → IsListing q (or_refuse status msg r next)
unfolding or_refuse
or_refuse_rule q status msg (err e) next bad h = record { listing = bad }
or_refuse_rule q status msg (ok a) next bad h = h a refl

clamp_limit_range : (z : ℤ) (n : ℕ) → clamp_limit z ≡ ok n → (1 ≤ n) × (n ≤ 100)
clamp_limit_range (negsuc k) n h = ground arith
clamp_limit_range (pos k) n h = ground arith

limit_param_range : (s : String) (n : ℕ) → limit_param s ≡ ok n → (1 ≤ n) × (n ≤ 100)
unfolding limit_param
limit_param_range s n h = elim (Bool-cases (str_eq s "")) [
  | inl e ↦ let known : ok 20 ≡ ok n = (rw e at h) in ground (arith, ok_inj known)
  | inr e ↦ elim (Result-cases (parse_int64 s)) [
    | inl (z, k) ↦ clamp_limit_range z n (rw (e, k) at h)
    | inr (x, k) ↦ let refused : err x ≡ ok n = (rw (e, k) at h) in cc
  ]
]

page_limit-same : (n : ℕ) → 1 ≤ n → n ≤ 100 → page_limit (pos n) ≡ n
unfolding page_limit
page_limit-same n h k = ground arith

module _ (texts : Collation) (tokens : Tokens) where
  page_of-le :
      (limit : ℕ) (ms : List Message) → length (page_of texts tokens limit ms).messages ≤ limit
  unfolding page_of
  page_of-le limit ms = elim (Bool-cases (ltb limit (length ms))) [
    | inl e ↦ rw e (length-take-le limit ms)
    | inr e ↦ rw e (ground arith)
  ]

  query_page-le :
      (m : String) (fails : Bool) (order : SortOrder) (condition : Message → Bool) (token : String)
      (limit : ℕ) (db : Db) (r : MessageListResult)
      → query_page texts tokens m fails order condition token limit db ≡ ok r
      → length r.messages ≤ limit
  unfolding query_page
  query_page-le m true order condition token limit db r h =
      elim (Result-cases (cursor_condition texts tokens order token)) [
        | inl (behind, e) ↦ let refused : err _ ≡ ok r = (rw e at h) in cc
        | inr (x, e) ↦ let refused : err x ≡ ok r = (rw e at h) in cc
      ]
  query_page-le m false order condition token limit db r h =
      elim (Result-cases (cursor_condition texts tokens order token)) [
        | inl (behind, e) ↦
            let page : page_of texts tokens limit _ ≡ r = ok_inj (rw e at h) in
            rw (← page) (page_of-le limit _)
        | inr (x, e) ↦ let refused : err x ≡ ok r = (rw e at h) in cc
      ]

  list_messages-le :
      (fails : Bool) (f : MessageFilter) (db : Db) (r : MessageListResult)
      → list_messages texts tokens fails f db ≡ ok r
      → length r.messages ≤ page_limit f.limit
  unfolding list_messages
  list_messages-le fails f db r h =
      query_page-le "listing messages" fails (sort_order_of (str_eq f.sort_order "asc"))
        (list_condition f) f.cursor (page_limit f.limit) db r h

  -- Whatever is asked, the reply is a listing within the limit of the request, which is at most 100,
  -- with its count, or it is refused as a bad request or an internal error.
  pub list_messages_handler-IsListing :
      (fails : Bool) (q : Params) (db : Db)
      → IsListing q (list_messages_handler texts tokens fails q db)
  unfolding list_messages_handler
  list_messages_handler-IsListing fails q db = or_refuse_rule q 400 _ _ _ (inl refl) λ src _.
      or_refuse_rule q 400 _ _ _ (inl refl) λ dst _. or_refuse_rule q 400 _ _ _ (inl refl) λ from _.
        or_refuse_rule q 400 _ _ _ (inl refl) λ to _.
          or_refuse_rule q 400 _ _ _ (inl refl) λ limit asked.
            or_refuse_rule q 500 _ _ listed (inr refl) λ r done.
              let range = limit_param_range (q "limit") limit asked in
              let small : length r.messages ≤ page_limit (pos limit) =
                list_messages-le fails _ db r done in
              let fits : length r.messages ≤ limit =
                ground (arith, small, page_limit-same limit range.0 range.1) in
              record { listing = (refl, refl, (limit, asked, range.1, fits)) }
