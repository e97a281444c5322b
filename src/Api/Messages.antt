-- ===== src/Api/Messages.antt =====
-- The queries of internal/api/message_querier.go and address_trace_querier.go. A page token is the
-- base64 of a position in JSON; that encoding is an argument.
pub mod Select
pub mod Paging
pub mod Complete
use akave_crosschain_archive.Base.{
  ℕ, suc, ◌+◌, ◌-◌, String, Bool, true, false, ◌&&◌, ◌||◌, Option, none, some, List, [], ◌∷◌, take,
  length, get_elem?, ltb, ◌==◌, str_eq, if◌then◌else◌, ◌≡◌, Result, ok, err, failure, ◌>>=◌, ◌>>◌,
}
use akave_crosschain_archive.Base.Int.{ℤ, pos, negsuc, leℤ, is_positive}
use akave_crosschain_archive.Base.Table.{lookup}
use akave_crosschain_archive.Database.{Db, exec}
use akave_crosschain_archive.Decoder.Axelar.{is_name}
use akave_crosschain_archive.Types.{
  MessageStatus, MessageType, Destination, Payload, Metadata, Message,
}
use akave_crosschain_archive.Api.Rows.{status_text, full_message, base_select}
use akave_crosschain_archive.Api.Order.{
  Collation, Position, position_of, SortOrder, ascending, descending, precedes, sort_rows,
}

-- `encodeCursor` and `decodeCursor`. A token that was made is not empty and is read back.
pub record Tokens : Type 0 where
  pub encode : Position → String
  pub decode : String → Result Position
  pub decode-encode : (p : Position) → decode (encode p) ≡ ok p
  pub named : (p : Position) → str_eq (encode p) "" ≡ false

-- `MessageFilter`: "" and none ask for nothing.
pub record MessageFilter : Type 0 where
  pub src_chain : Option ℕ
  pub dst_chain : Option ℕ
  pub protocol : String
  pub status : String
  pub sender : String
  pub receiver : String
  pub from_ts : Option ℤ
  pub to_ts : Option ℤ
  pub cursor : String
  pub limit : ℤ
  pub sort_order : String

-- `AddressHistoryFilter`
pub record AddressHistoryFilter : Type 0 where
  pub protocol : String
  pub src_chain : Option ℕ
  pub dst_chain : Option ℕ
  pub status : String
  pub cursor : String
  pub limit : ℤ
  pub sort_order : String

-- `MessageListResult`
pub record MessageListResult : Type 0 where
  pub messages : List Message
  pub next_cursor : String

-- `if wanted != "" { … column = wanted }`
abbrev pub text_is : String → String → Bool
text_is wanted column = str_eq wanted "" || str_eq column wanted

abbrev pub number_is : Option ℕ → ℕ → Bool
number_is none column = true
number_is (some n) column = column == n

-- The columns of the destination, which are NULL where no row joins: then no condition holds.
abbrev pub destination_chain_is : Option ℕ → Option Destination → Bool
destination_chain_is none d = true
destination_chain_is (some n) none = false
destination_chain_is (some n) (some d) = d.chain_id == n

abbrev pub is_receiver : String → Option Destination → Bool
is_receiver a none = false
is_receiver a (some d) = str_eq d.receiver a

abbrev pub is_destination_tx : String → Option Destination → Bool
is_destination_tx hash none = false
is_destination_tx hash (some d) = str_eq d.tx_hash hash

abbrev pub is_from : Option ℤ → ℤ → Bool
is_from none t = true
is_from (some from) t = leℤ from t

abbrev pub is_until : Option ℤ → ℤ → Bool
is_until none t = true
is_until (some to) t = leℤ t to

-- The conditions of `List`, the token's aside.
unfoldable pub list_condition : MessageFilter → Message → Bool
list_condition f m =
    text_is f.protocol m.protocol
    && text_is f.status (status_text m.status)
    && number_is f.src_chain m.source.chain_id
    && destination_chain_is f.dst_chain m.destination
    && text_is f.sender m.source.sender
    && (str_eq f.receiver "" || is_receiver f.receiver m.destination)
    && is_from f.from_ts m.source.timestamp
    && is_until f.to_ts m.source.timestamp

-- The conditions of `GetAddressHistory`, the token's aside; `matching_ids` is the first.
unfoldable pub history_condition : String → AddressHistoryFilter → Message → Bool
history_condition address f m =
    (str_eq m.source.sender address || is_receiver address m.destination)
    && text_is f.protocol m.protocol
    && text_is f.status (status_text m.status)
    && number_is f.src_chain m.source.chain_id
    && destination_chain_is f.dst_chain m.destination

-- `if limit <= 0 || limit > 100 { limit = 20 }`
unfoldable pub page_limit : ℤ → ℕ
page_limit (negsuc n) = 20
page_limit (pos n) = if n == 0 || ltb 100 n then 20 else n

abbrev pub sort_order_of : Bool → SortOrder
sort_order_of true = ascending
sort_order_of false = descending

-- WHERE
unfoldable pub select : (Message → Bool) → List Message → List Message
select p [] = []
select p (m ∷ ms) = if p m then m ∷ select p ms else select p ms

module _ (texts : Collation) (tokens : Tokens) where
  -- The condition of a page token: the row comes behind its position.
  unfoldable pub cursor_condition : SortOrder → String → Result (Message → Bool)
  cursor_condition order token =
      if str_eq token ""
      then ok (λ m. true)
      else (tokens.decode token >>= λ p. ok (λ m. precedes texts order p (position_of m)))

  abbrev pub token_of : Option Message → String
  token_of none = ""
  token_of (some m) = tokens.encode (position_of m)

  -- One row more than the limit shows that there is a next page.
  unfoldable pub page_of : ℕ → List Message → MessageListResult
  page_of limit ms =
      if ltb limit (length ms)
      then record { messages = take limit ms; next_cursor = token_of (get_elem? ms (limit - 1)) }
      else record { messages = ms; next_cursor = "" }

  -- The query that `List` and `GetAddressHistory` build. Filtering keeps the order of the rows.
  unfoldable pub query_page :
      String → Bool → SortOrder → (Message → Bool) → String → ℕ → Db → Result MessageListResult
  query_page m fails order condition token limit db = do
    behind ← cursor_condition order token
    rows ← exec m fails (
        ok (
          take (limit + 1)
            (select (λ r. condition r && behind r) (sort_rows texts order (base_select db)))))
    ok (page_of limit rows)

  -- `List`
  unfoldable pub list_messages : Bool → MessageFilter → Db → Result MessageListResult
  list_messages fails f db =
      query_page "listing messages" fails (sort_order_of (str_eq f.sort_order "asc"))
        (list_condition f) f.cursor (page_limit f.limit) db

  -- `GetAddressHistory`
  unfoldable pub get_address_history :
      Bool → String → AddressHistoryFilter → Db → Result MessageListResult
  get_address_history fails address f db =
      if str_eq address ""
      then err (failure "address is required")
      else query_page "querying address history" fails (sort_order_of (is_name f.sort_order "asc"))
          (history_condition address f) f.cursor (page_limit f.limit) db

-- `GetByTxHash`: the query orders by the time alone, and leaves the order of equal times open.
unfoldable pub get_by_tx_hash : Collation → Bool → String → Db → Result (List Message)
get_by_tx_hash texts fails hash db = exec "querying messages by tx hash" fails (
    ok (
      select (λ m. str_eq m.source.tx_hash hash || is_destination_tx hash m.destination)
        (sort_rows texts descending (base_select db))))
