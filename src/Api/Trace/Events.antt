-- ===== src/Api/Trace/Events.antt =====
-- The trace of a stored message.
use akave_crosschain_archive.Base.{
  String, Bool, true, false, not, Option, none, some, List, [], ◌∷◌, str_eq, str_ne, if◌then◌else◌,
  ◌≡◌, ◌≢◌, refl, ◌∙◌, ap, ok,
}
use akave_crosschain_archive.Base.Table.{lookup}
use akave_crosschain_archive.Correlator.Consistency.{
  Reachable, Reachable-IsConsistent, has, is_settled,
}
use akave_crosschain_archive.Database.{Db, MessageRow, is_pending}
use akave_crosschain_archive.Types.{Source, Destination}
use akave_crosschain_archive.Api.Rows.{scan_full_message, full_message}
use akave_crosschain_archive.Api.Trace.{
  TraceEvent, TraceResponse, sent_event, received_event, received_events, find_message, trace_of,
  get_trace,
}

-- The events behind the first: none of a pending message; else that of its destination, if it has a
-- transaction.
abbrev pub EndsAs : Db → String → Bool → List TraceEvent → Type 0
EndsAs db id true ends = ends ≡ []
EndsAs db id false ends =
    (d : Destination) × (lookup id db.destinations ≡ some d)
    × (ends ≡ (if str_eq d.tx_hash "" then [] else received_event d ∷ []))

-- What the trace of a message shows.
pub record IsTraceOf (db : Db) (id : String) (row : MessageRow) (t : TraceResponse) : Type 0 where
  pub source : Source
  pub has_source : lookup id db.sources ≡ some source
  pub status : t.status ≡ row.status
  pub ends : List TraceEvent
  pub events : t.events ≡ sent_event source ∷ ends
  pub end : EndsAs db id (is_pending row.status) ends

has-some {ℓ} : {A : Type ℓ} (o : Option A) → has o ≡ true → (a : A) × (o ≡ some a)
has-some none h = cc
has-some (some a) h = (a, refl)

has-none {ℓ} : {A : Type ℓ} (o : Option A) → has o ≡ false → o ≡ none
has-none none h = refl
has-none (some a) h = cc

received-EndsAs :
    (db : Db) (id : String) (is_waiting : Bool)
    → has (lookup id db.destinations) ≡ not is_waiting
    → EndsAs db id is_waiting (received_events (lookup id db.destinations))
unfolding received_events
received-EndsAs db id true h = rw (has-none (lookup id db.destinations) h) refl
received-EndsAs db id false h =
    let (d, e) = has-some (lookup id db.destinations) h in (d, e, ap received_events e)

get_trace-found :
    (db : Db) (id : String) (row : MessageRow) (src : Source)
    → id ≢ ""
    → lookup id db.messages ≡ some row
    → lookup id db.sources ≡ some src
    → get_trace false id db ≡ ok (some (trace_of (scan_full_message db id row src)))
unfolding get_trace find_message full_message
get_trace-found db id row src named stored has_source =
    rw (str_ne id "" named) (rw (stored, find_message) (rw (has_source, full_message) refl))

-- In every database that events can lead to, a stored message with an identifier that is not empty
-- has a trace: with its status, its source, and behind it nothing while it is pending, and its
-- destination afterwards, if that has a transaction.
pub get_trace-IsTraceOf :
    {db : Db} (r : Reachable db) (id : String) (row : MessageRow)
    → id ≢ ""
    → lookup id db.messages ≡ some row
    → (t : TraceResponse) × (get_trace false id db ≡ ok (some t)) × IsTraceOf db id row t
unfolding trace_of
get_trace-IsTraceOf {db} r id row named stored =
    let consistent = Reachable-IsConsistent r in
    let (src, has_source) =
      has-some (lookup id db.sources) (consistent.sources id ∙ ap has stored) in
    (
      trace_of (scan_full_message db id row src),
      get_trace-found db id row src named stored has_source,
      record {
        source = src;
        has_source = has_source;
        status = refl;
        ends = received_events (lookup id db.destinations);
        events = refl;
        end =
            received-EndsAs db id (is_pending row.status)
              (consistent.destinations id ∙ ap is_settled stored);
      },
    )
