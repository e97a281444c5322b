-- ===== src/Api/Messages/Paging.antt =====
-- Following the page tokens reads the whole result.
use mathlib.Core.List.{append_assoc}
use akave_crosschain_archive.Base.{
  ℕ, zero, suc, ◌+◌, ◌-◌, ◌<◌, ◌≤◌, String, Bool, true, false, some, List, [], ◌∷◌, ◌++◌, length,
  take, get_elem?, ltb, str_eq, if◌then◌else◌, ◌≡◌, refl, sym, ap, ◌∙◌, subst, arith, inl, inr,
  Bool-cases, Result, ok, err, failure, ◌>>=◌,
}
use akave_crosschain_archive.Database.{Db}
use akave_crosschain_archive.Types.{Message}
use akave_crosschain_archive.Api.Messages.{
  Tokens, MessageListResult, select, cursor_condition, page_of, query_page,
}
use akave_crosschain_archive.Api.Messages.Select.{
  select-select, select-all, select-IsSorted, select_behind,
}
use akave_crosschain_archive.Api.Order.Sorted.{AreDistinct, IsSorted, sort_rows-IsSorted}
use akave_crosschain_archive.Api.Order.{Collation, SortOrder, position_of, precedes, sort_rows}
use akave_crosschain_archive.Api.Rows.{base_select}

-- A client that asks for pages, each by the token of the one before, until there is none.
unfoldable pub follow : (String → Result MessageListResult) → ℕ → String → Result (List Message)
follow ask zero token = err (failure "more pages")
follow ask (suc rounds) token = do
  page ← ask token
  let rest = follow ask rounds page.next_cursor
  if str_eq page.next_cursor "" then ok page.messages else (rest >>= λ ms. ok (page.messages ++ ms))

-- A longer list, split behind its first `suc n` rows.
pub record Split (n : ℕ) (ms : List Message) : Type 0 where
  pub before : List Message
  pub last : Message
  pub after : List Message
  pub whole : ms ≡ before ++ last ∷ after
  pub page : take (suc n) ms ≡ before ++ last ∷ []
  pub found : get_elem? (take (suc (suc n)) ms) n ≡ some last
  pub enough : ltb (suc n) (length (take (suc (suc n)) ms)) ≡ true
  pub cut : take (suc n) (take (suc (suc n)) ms) ≡ before ++ last ∷ []
  pub counted : length ms ≡ suc n + length after

length-Split : (n : ℕ) (ms : List Message) → suc n < length ms → Split n ms
length-Split zero [] h = absurd (omega arith)
length-Split zero (m ∷ []) h = absurd (omega arith)
length-Split zero (m ∷ k ∷ ms) h = record {
  before = [];
  last = m;
  after = k ∷ ms;
  whole = refl;
  page = refl;
  found = refl;
  enough = ground arith;
  cut = refl;
  counted = omega arith;
}
length-Split (suc n) [] h = absurd (omega arith)
length-Split (suc n) (m ∷ ms) h =
    let s = length-Split n ms (omega arith) in
    record {
      before = m ∷ s.before;
      last = s.last;
      after = s.after;
      whole = ap (λ l. m ∷ l) s.whole;
      page = ap (λ l. m ∷ l) s.page;
      found = s.found;
      enough = ground (arith, s.enough);
      cut = ap (λ l. m ∷ l) s.cut;
      counted = omega (arith, s.counted);
    }

take_all : (n : ℕ) (ms : List Message) → length ms ≤ n → take n ms ≡ ms
take_all zero [] h = refl
take_all zero (m ∷ ms) h = absurd (omega arith)
take_all (suc n) [] h = refl
take_all (suc n) (m ∷ ms) h = ap (λ l. m ∷ l) (take_all n ms (omega arith))

module _ (texts : Collation) (tokens : Tokens) where
  last_page :
      (limit : ℕ) (ms : List Message)
      → length ms ≤ limit
      → page_of texts tokens limit (take (limit + 1) ms)
        ≡ record { messages = ms; next_cursor = "" }
  unfolding page_of
  last_page limit ms h =
      let small : ltb limit (length ms) ≡ false = ground arith in
      rw (take_all (limit + 1) ms (omega arith), small) refl

  next_page :
      (n : ℕ) (ms : List Message) (s : Split n ms)
      → page_of texts tokens (suc n) (take (suc n + 1) ms) ≡ record {
        messages = s.before ++ s.last ∷ [];
        next_cursor = tokens.encode (position_of s.last);
      }
  unfolding page_of
  next_page n ms s =
      let two : suc n + 1 ≡ suc (suc n) = omega arith in
      let one : suc n - 1 ≡ n = omega arith in rw (two, s.enough, one, s.found, s.cut) refl

  module _ (m : String) (order : SortOrder) (condition : Message → Bool) (n : ℕ) (db : Db)
      (distinct : AreDistinct (base_select db)) where
    abbrev pub ask : String → Result MessageListResult
    ask token = query_page texts tokens m false order condition token (suc n) db

    abbrev pub whole : List Message
    whole = select condition (sort_rows texts order (base_select db))

    whole-IsSorted : IsSorted texts order whole
    whole-IsSorted =
        select-IsSorted texts order condition (sort_rows texts order (base_select db))
          (sort_rows-IsSorted texts order (base_select db) distinct)

    pub ask_first : ask "" ≡ ok (page_of texts tokens (suc n) (take (suc n + 1) whole))
    unfolding query_page cursor_condition
    ask_first = rw (select-all condition (sort_rows texts order (base_select db))) refl

    ask_behind :
        (last : Message) (before after : List Message)
        → whole ≡ before ++ last ∷ after
        → ask (tokens.encode (position_of last))
          ≡ ok (page_of texts tokens (suc n) (take (suc n + 1) after))
    unfolding query_page cursor_condition
    ask_behind last before after e =
        let p = position_of last in
        let behind = λ (r : Message). precedes texts order p (position_of r) in
        let here : select behind whole ≡ after = rw e (
          select_behind texts order last before after
            (subst (IsSorted texts order) e whole-IsSorted)) in
        rw (tokens.named p, tokens.decode-encode p)
          (rw (select-select condition behind (sort_rows texts order (base_select db)))
            (rw here refl))

    pub follow_from :
        (rounds : ℕ) (token : String) (before ms : List Message)
        → whole ≡ before ++ ms
        → ask token ≡ ok (page_of texts tokens (suc n) (take (suc n + 1) ms))
        → length ms < rounds
        → follow ask rounds token ≡ ok ms
    unfolding follow
    follow_from zero token before ms e asked fits = absurd (omega arith)
    follow_from (suc rounds) token before ms e asked fits =
        elim (Bool-cases (ltb (suc n) (length ms))) [
          | inr short ↦ rw (asked, last_page (suc n) ms (ground arith)) refl
          | inl long ↦
              let s = length-Split n ms (ground arith) in
              let here : whole ≡ (before ++ s.before) ++ s.last ∷ s.after =
                e ∙ ap (λ l. before ++ l) s.whole ∙ simp append_assoc refl in
              let there : whole ≡ (before ++ s.before ++ s.last ∷ []) ++ s.after =
                e ∙ ap (λ l. before ++ l) s.whole ∙ simp append_assoc refl in
              let rest =
                follow_from rounds (tokens.encode (position_of s.last))
                  (before ++ s.before ++ s.last ∷ []) s.after there
                  (ask_behind s.last (before ++ s.before) s.after here)
                  (omega (arith, s.counted)) in
              rw (asked, next_page n ms s, tokens.named (position_of s.last), rest)
                (ap ok (simp append_assoc refl ∙ sym s.whole))
        ]
