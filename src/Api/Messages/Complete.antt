-- ===== src/Api/Messages/Complete.antt =====
-- The pages of a listing, over every database that the archive can be in.
use mathlib.Core.List.{Perm}
use akave_crosschain_archive.Base.{
  All, ℕ, zero, suc, str_ne, String, Bool, false, none, some, List, [], ◌∷◌, length, ltb, str_eq,
  ◌≡◌, ◌≢◌, refl, ap, arith, eq_iff, inl, inr, Bool-cases, Option-cases, Result, ok,
}
use akave_crosschain_archive.Base.Int.{ℤ, pos, negsuc}
use akave_crosschain_archive.Base.Table.{Table, lookup, IsKeyed}
use akave_crosschain_archive.Correlator.Consistency.{Reachable}
use akave_crosschain_archive.Correlator.Keys.{Reachable-IsKeyed}
use akave_crosschain_archive.Database.{Db, MessageRow}
use akave_crosschain_archive.Decoder.Axelar.{is_name}
use akave_crosschain_archive.Types.{Message, Source}
use akave_crosschain_archive.Api.Messages.{
  Tokens, MessageFilter, AddressHistoryFilter, MessageListResult, select, list_condition,
  history_condition, page_limit, sort_order_of, query_page, list_messages, get_address_history,
}
use akave_crosschain_archive.Api.Messages.Paging.{follow, follow_from, ask_first}
use akave_crosschain_archive.Api.Messages.Select.{select-IsSorted, select-sort_rows}
use akave_crosschain_archive.Api.Order.Sorted.{AreDistinct, IsSorted, sort_rows-IsSorted}
use akave_crosschain_archive.Api.Order.{Collation, SortOrder, sort_rows}
use akave_crosschain_archive.Api.Rows.{
  and_more, scan_full_message, full_message, rows_of, base_select,
}

-- A row with no source is left out.
rows_of-none :
    (db : Db) (id : String) (row : MessageRow) (t : Table MessageRow)
    → lookup id db.sources ≡ none
    → rows_of db ((id, row) ∷ t) ≡ rows_of db t
unfolding rows_of full_message
rows_of-none db id row t e =
    let joined : full_message db id row ≡ none = rw (e, full_message) refl in
    ap (λ o. and_more o (rows_of db t)) joined

rows_of-some :
    (db : Db) (id : String) (row : MessageRow) (t : Table MessageRow) (src : Source)
    → lookup id db.sources ≡ some src
    → rows_of db ((id, row) ∷ t) ≡ scan_full_message db id row src ∷ rows_of db t
unfolding rows_of full_message
rows_of-some db id row t src e =
    let joined : full_message db id row ≡ some (scan_full_message db id row src) =
      rw (e, full_message) refl in
    ap (λ o. and_more o (rows_of db t)) joined

rows_of-differ :
    (db : Db) (id : String) (t : Table MessageRow)
    → lookup id t ≡ none
    → All (λ m. id ≢ m.message_id) (rows_of db t)
unfolding lookup
rows_of-differ db id [] h = unfold rows_of in tt
rows_of-differ db id ((k, row) ∷ t) h =
    let rest = rows_of-differ db id t (ground (arith, h)) in
    let other : id ≢ k = λ e. ground (arith, h, eq_iff k id) in
    elim (Option-cases (lookup k db.sources)) [
      | inl e ↦ rw (rows_of-none db k row t e) rest
      | inr (src, e) ↦ rw (rows_of-some db k row t src e) (other, rest)
    ]

rows_of-AreDistinct : (db : Db) (t : Table MessageRow) → IsKeyed t → AreDistinct (rows_of db t)
rows_of-AreDistinct db [] h = unfold rows_of in tt
rows_of-AreDistinct db ((k, row) ∷ t) (new, h) =
    let rest = rows_of-AreDistinct db t h in
    elim (Option-cases (lookup k db.sources)) [
      | inl e ↦ rw (rows_of-none db k row t e) rest
      | inr (src, e) ↦ rw (rows_of-some db k row t src e) (rows_of-differ db k t new, rest)
    ]

pub base_select-AreDistinct : {db : Db} → Reachable db → AreDistinct (base_select db)
unfolding base_select
base_select-AreDistinct {db} r = rows_of-AreDistinct db db.messages (Reachable-IsKeyed r)

page_limit-pos : (limit : ℤ) → (n : ℕ) × (page_limit limit ≡ suc n)
unfolding page_limit
page_limit-pos (negsuc k) = (19, refl)
page_limit-pos (pos zero) = (19, refl)
page_limit-pos (pos (suc j)) = elim (Bool-cases (ltb 100 (suc j))) [
  | inl e ↦ (19, ground arith)
  | inr e ↦ (j, ground arith)
]

-- What following the tokens of `ask` reads: the messages, sorted, of the condition.
pub record ReadsAll (texts : Collation) (order : SortOrder) (condition : Message → Bool) (db : Db)
    (ask : String → Result MessageListResult) : Type 0 where
  pub messages : List Message
  pub read : follow ask (suc (length messages)) "" ≡ ok messages
  pub sorted : IsSorted texts order messages
  pub complete : Perm messages (select condition (base_select db))

module _ (texts : Collation) (tokens : Tokens) {db : Db} (r : Reachable db) where
  query_page-ReadsAll :
      (m : String) (order : SortOrder) (condition : Message → Bool) (limit n : ℕ)
      → limit ≡ suc n
      → ReadsAll texts order condition db
          (λ token. query_page texts tokens m false order condition token limit db)
  query_page-ReadsAll m order condition limit n e =
      let distinct = base_select-AreDistinct r in
      let rows = sort_rows texts order (base_select db) in
      let ms = select condition rows in
      rw e (record {
        messages = ms;
        read =
            follow_from texts tokens m order condition n db distinct (suc (length ms)) "" [] ms refl
              (ask_first texts tokens m order condition n db distinct) (omega arith);
        sorted =
            select-IsSorted texts order condition rows
              (sort_rows-IsSorted texts order (base_select db) distinct);
        complete = select-sort_rows texts order condition (base_select db);
      })

  -- Over every database that events can lead to, following the page tokens of `List` from the start
  -- ends and reads exactly the messages that meet the filter, each once, in strict order.
  pub list_messages-ReadsAll :
      (f : MessageFilter)
      → ReadsAll texts
          (sort_order_of (str_eq f.sort_order "asc"))
          (list_condition f)
          db
          (λ token. list_messages texts tokens false (record f { cursor = token }) db)
  unfolding list_messages list_condition
  list_messages-ReadsAll f =
      let (n, e) = page_limit-pos f.limit in
      query_page-ReadsAll "listing messages" (sort_order_of (str_eq f.sort_order "asc"))
        (list_condition f) (page_limit f.limit) n e

  -- So does following the tokens of `GetAddressHistory`, of an address that is not empty.
  pub get_address_history-ReadsAll :
      (address : String) (f : AddressHistoryFilter)
      → address ≢ ""
      → ReadsAll texts
          (sort_order_of (is_name f.sort_order "asc"))
          (history_condition address f)
          db
          (λ token. get_address_history texts tokens false address (record f { cursor = token }) db)
  unfolding get_address_history history_condition
  get_address_history-ReadsAll address f named =
      let (n, e) = page_limit-pos f.limit in
      rw (str_ne address "" named) (
        query_page-ReadsAll "querying address history" (sort_order_of (is_name f.sort_order "asc"))
          (history_condition address f) (page_limit f.limit) n e)
