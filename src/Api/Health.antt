-- ===== src/Api/Health.antt =====
-- The health check of internal/api/handler.go, and the cursors that it shows, of cursor_querier.go.
use akave_crosschain_archive.Base.{
  ℕ, String, Bool, ◌&&◌, ◌||◌, Option, none, some, List, [], ◌∷◌, ltb, ◌==◌, if◌then◌else◌, Result,
  ok, err, Error,
}
use akave_crosschain_archive.Database.{exec}
use akave_crosschain_archive.Indexer.Cursors.{CursorRow}
use akave_crosschain_archive.Api.Order.{Collation}

-- `healthResponse`, whose cursors are nil where they could not be read. A row of the table is a
-- `CursorInfo`, its time of change aside.
pub record HealthResponse : Type 0 where
  pub code : ℕ
  pub state : String
  pub database : String
  pub indexer : Option (Option (List CursorRow))
  pub reason : Option Error

module _ (texts : Collation) where
  -- (chain_id, protocol) < (chain_id, protocol)
  unfoldable pub shown_before : CursorRow → CursorRow → Bool
  shown_before a b =
      ltb a.chain_id b.chain_id || (a.chain_id == b.chain_id && texts.before a.protocol b.protocol)

  unfoldable pub insert_shown : CursorRow → List CursorRow → List CursorRow
  insert_shown c [] = c ∷ []
  insert_shown c (d ∷ ds) = if shown_before c d then c ∷ d ∷ ds else d ∷ insert_shown c ds

  -- ORDER BY chain_id, protocol
  unfoldable pub sort_shown : List CursorRow → List CursorRow
  sort_shown [] = []
  sort_shown (c ∷ cs) = insert_shown c (sort_shown cs)

  -- `QueryCursors`
  unfoldable pub query_cursors : Bool → List CursorRow → Result (List CursorRow)
  query_cursors fails rows = exec "querying indexer cursors" fails (ok (sort_shown rows))

  abbrev pub shown_cursors : Result (List CursorRow) → Option (List CursorRow)
  shown_cursors (err e) = none
  shown_cursors (ok cursors) = some cursors

  -- `HealthHandler`, by what the ping answers.
  unfoldable pub health_handler : Result (Unit {0}) → Bool → List CursorRow → HealthResponse
  health_handler (err e) fails rows = record {
    code = 503;
    state = "degraded";
    database = "disconnected";
    indexer = none;
    reason = some e;
  }
  health_handler (ok _) fails rows = record {
    code = 200;
    state = "ok";
    database = "connected";
    indexer = some (shown_cursors (query_cursors fails rows));
    reason = none;
  }
