-- ===== src/Api/Handlers.antt =====
-- The handlers of internal/api/message_handler.go and address_trace_handler.go, over the queries.
pub mod Bounds
use akave_crosschain_archive.Base.{
  ℕ, String, Bool, Option, none, some, List, length, str_eq, if◌then◌else◌, Result, ok, err,
  failure,
}
use akave_crosschain_archive.Base.Int.{pos}
use akave_crosschain_archive.Database.{Db}
use akave_crosschain_archive.Types.{Message}
use akave_crosschain_archive.Api.Messages.{
  Tokens, MessageFilter, AddressHistoryFilter, MessageListResult, list_messages,
  get_address_history, get_by_tx_hash,
}
use akave_crosschain_archive.Api.Order.{Collation}
use akave_crosschain_archive.Api.Params.{
  Params, Response, reply, refuse, or_refuse, parse_uint64_param, parse_int64_param, limit_param,
  history_limit_param, sort_param,
}
use akave_crosschain_archive.Api.Trace.{TraceResponse, get_by_id, get_trace}

-- `messagesListResponse`
pub record MessagesListResponse : Type 0 where
  pub messages : List Message
  pub next_cursor : String
  pub count : ℕ

-- `addressHistoryResponse`
pub record AddressHistoryResponse : Type 0 where
  pub address : String
  pub messages : List Message
  pub count : ℕ
  pub next_cursor : String

-- `txMessagesResponse`
pub record TxMessagesResponse : Type 0 where
  pub tx_hash : String
  pub messages : List Message
  pub count : ℕ

-- 404 for nil
abbrev pub found_or_missing {ℓ} : {A : Type ℓ} → Option A → Response A
found_or_missing none = refuse 404 "message not found"
found_or_missing (some a) = reply 200 a

-- `GetMessageHandler`
unfoldable pub get_message_handler : Bool → String → Db → Response Message
get_message_handler fails id db =
    if str_eq id ""
    then refuse 400 "message_id is required"
    else or_refuse 500 "failed to retrieve message" (get_by_id fails id db) found_or_missing

-- `GetTraceHandler`
unfoldable pub get_trace_handler : Bool → String → Db → Response TraceResponse
get_trace_handler fails id db =
    if str_eq id ""
    then refuse 400 "message_id is required"
    else or_refuse 500 "failed to retrieve trace" (get_trace fails id db) found_or_missing

abbrev pub listed : MessageListResult → Response MessagesListResponse
listed r =
    reply 200
      (record { messages = r.messages; next_cursor = r.next_cursor; count = length r.messages })

module _ (texts : Collation) (tokens : Tokens) where
  -- `ListMessagesHandler`
  unfoldable pub list_messages_handler : Bool → Params → Db → Response MessagesListResponse
  list_messages_handler fails q db =
      or_refuse 400 "invalid src_chain parameter" (parse_uint64_param (q "src_chain")) λ src.
        or_refuse 400 "invalid dst_chain parameter" (parse_uint64_param (q "dst_chain")) λ dst.
          or_refuse 400 "invalid from_ts parameter" (parse_int64_param (q "from_ts")) λ from.
            or_refuse 400 "invalid to_ts parameter" (parse_int64_param (q "to_ts")) λ to.
              or_refuse 400 "invalid limit parameter" (limit_param (q "limit")) λ limit.
                or_refuse 500 "failed to list messages"
                  (list_messages texts tokens fails
                    (record {
                      src_chain = src;
                      dst_chain = dst;
                      protocol = q "protocol";
                      status = q "status";
                      sender = q "sender";
                      receiver = q "receiver";
                      from_ts = from;
                      to_ts = to;
                      cursor = q "cursor";
                      limit = pos limit;
                      sort_order = sort_param (q "sort");
                    })
                    db)
                  listed

  abbrev pub history_listed : String → MessageListResult → Response AddressHistoryResponse
  history_listed address r = reply 200 (record {
    address = address;
    messages = r.messages;
    count = length r.messages;
    next_cursor = r.next_cursor;
  })

  -- `GetAddressHistoryHandler`
  unfoldable pub get_address_history_handler :
      Bool → String → Params → Db → Response AddressHistoryResponse
  get_address_history_handler fails address q db =
      if str_eq address ""
      then refuse 400 "address is required"
      else (or_refuse 400 "invalid src_chain parameter" (parse_uint64_param (q "src_chain")) λ src.
          or_refuse 400 "invalid dst_chain parameter" (parse_uint64_param (q "dst_chain")) λ dst.
            or_refuse 400 "invalid limit parameter" (history_limit_param (q "limit")) λ limit.
              or_refuse 500 "failed to retrieve address history"
                (get_address_history texts tokens fails address
                  (record {
                    protocol = q "protocol";
                    src_chain = src;
                    dst_chain = dst;
                    status = q "status";
                    cursor = q "cursor";
                    limit = pos limit;
                    sort_order = sort_param (q "sort");
                  })
                  db)
                (history_listed address))

  abbrev pub tx_listed : String → List Message → Response TxMessagesResponse
  tx_listed hash ms = reply 200 (record { tx_hash = hash; messages = ms; count = length ms })

  -- `GetTxMessagesHandler`
  unfoldable pub get_tx_messages_handler : Bool → String → Db → Response TxMessagesResponse
  get_tx_messages_handler fails hash db =
      if str_eq hash ""
      then refuse 400 "tx_hash is required"
      else or_refuse 500 "failed to retrieve messages" (get_by_tx_hash texts fails hash db)
          (tx_listed hash)
