-- ===== src/Api/Order.antt =====
-- The order of the queries: by the time of creation, then by the identifier. How the database orders
-- texts is an argument.
pub mod Sorted
use akave_crosschain_archive.Base.{
  ℕ, String, Bool, true, false, ◌&&◌, ◌||◌, List, [], ◌∷◌, ltb, ◌==◌, if◌then◌else◌, ◌≡◌,
}
use akave_crosschain_archive.Types.{Message}

-- The collation of the database: a strict order of texts.
pub record Collation : Type 0 where
  pub before : String → String → Bool
  pub irreflexive : (s : String) → before s s ≡ false
  pub transitive : (s t u : String) → before s t ≡ true → before t u ≡ true → before s u ≡ true
  pub total : (s t : String) → before s t ≡ false → before t s ≡ false → s ≡ t

-- `cursor`: what the order looks at, and what a page token holds.
pub record Position : Type 0 where
  pub created_at : ℕ
  pub message_id : String

abbrev pub position_of : Message → Position
position_of m = record { created_at = m.created_at; message_id = m.message_id }

pub data SortOrder : Type 0 where
  ascending descending : SortOrder

module _ (texts : Collation) where
  -- (created_at, message_id) < (created_at, message_id)
  unfoldable pub row_lt : Position → Position → Bool
  row_lt a b =
      ltb a.created_at b.created_at
      || (a.created_at == b.created_at && texts.before a.message_id b.message_id)

  -- The second position comes behind the first.
  abbrev pub precedes : SortOrder → Position → Position → Bool
  precedes ascending a b = row_lt a b
  precedes descending a b = row_lt b a

  unfoldable pub insert_row : SortOrder → Message → List Message → List Message
  insert_row order m [] = m ∷ []
  insert_row order m (n ∷ ns) =
      if precedes order (position_of m) (position_of n)
      then m ∷ n ∷ ns
      else n ∷ insert_row order m ns

  -- ORDER BY created_at, message_id
  unfoldable pub sort_rows : SortOrder → List Message → List Message
  sort_rows order [] = []
  sort_rows order (m ∷ ms) = insert_row order m (sort_rows order ms)
