-- ===== src/Api/Order/Sorted.antt =====
-- Sorting puts rows of different identifiers in strict order, and loses none.
use akave_crosschain_archive.Base.{
  All, true, false, List, [], ◌∷◌, ◌≡◌, ◌≢◌, arith, inl, inr, Bool-cases,
}
use akave_crosschain_archive.Types.{Message}
use akave_crosschain_archive.Api.Order.{
  Collation, Position, position_of, SortOrder, ascending, descending, row_lt, precedes, insert_row,
  sort_rows,
}

-- No identifier occurs twice.
abbrev pub AreDistinct : List Message → Type 0
AreDistinct [] = Unit
AreDistinct (m ∷ ms) = All (λ n. m.message_id ≢ n.message_id) ms × AreDistinct ms

module _ (texts : Collation) where
  row_lt_irreflexive : (a : Position) → row_lt texts a a ≡ false
  unfolding row_lt
  row_lt_irreflexive a = ground (arith, texts.irreflexive a.message_id)

  row_lt_transitive :
      (a b c : Position)
      → row_lt texts a b ≡ true
      → row_lt texts b c ≡ true
      → row_lt texts a c ≡ true
  unfolding row_lt
  row_lt_transitive a b c h k =
      ground (arith, texts.transitive a.message_id b.message_id c.message_id)

  row_lt_total :
      (a b : Position)
      → a.message_id ≢ b.message_id
      → row_lt texts a b ≡ false
      → row_lt texts b a ≡ true
  unfolding row_lt
  row_lt_total a b h k = ground (arith, texts.total a.message_id b.message_id)

  pub precedes_irreflexive : (order : SortOrder) (a : Position) → precedes texts order a a ≡ false
  precedes_irreflexive ascending a = row_lt_irreflexive a
  precedes_irreflexive descending a = row_lt_irreflexive a

  pub precedes_transitive :
      (order : SortOrder) (a b c : Position)
      → precedes texts order a b ≡ true
      → precedes texts order b c ≡ true
      → precedes texts order a c ≡ true
  precedes_transitive ascending a b c h k = row_lt_transitive a b c h k
  precedes_transitive descending a b c h k = row_lt_transitive c b a k h

  pub precedes_asymmetric :
      (order : SortOrder) (a b : Position)
      → precedes texts order a b ≡ true
      → precedes texts order b a ≡ false
  precedes_asymmetric order a b h = elim (Bool-cases (precedes texts order b a)) [
    | inr no_more ↦ no_more
    | inl back ↦ cc (precedes_transitive order a b a h back, precedes_irreflexive order a)
  ]

  precedes_total :
      (order : SortOrder) (a b : Position)
      → a.message_id ≢ b.message_id
      → precedes texts order a b ≡ false
      → precedes texts order b a ≡ true
  precedes_total ascending a b h k = row_lt_total a b h k
  precedes_total descending a b h k = row_lt_total b a (λ e. h (cc)) k

  -- The second row comes behind the first.
  abbrev pub IsBehind : SortOrder → Message → Message → Type 0
  IsBehind order m n = precedes texts order (position_of m) (position_of n) ≡ true

  abbrev pub IsSorted : SortOrder → List Message → Type 0
  IsSorted order [] = Unit
  IsSorted order (m ∷ ms) = All (IsBehind order m) ms × IsSorted order ms

  All-insert_row {ℓ} :
      (P : Message → Type ℓ) (order : SortOrder) (m : Message) (ms : List Message)
      → P m
      → All P ms
      → All P (insert_row texts order m ms)
  unfolding insert_row
  All-insert_row P order m [] p ps = (p, tt)
  All-insert_row P order m (n ∷ ns) p (q, qs) =
      elim (Bool-cases (precedes texts order (position_of m) (position_of n))) [
        | inl first ↦ rw first (p, (q, qs))
        | inr later ↦ rw later (q, All-insert_row P order m ns p qs)
      ]

  All-IsBehind :
      (order : SortOrder) (m n : Message) (ns : List Message)
      → IsBehind order m n
      → All (IsBehind order n) ns
      → All (IsBehind order m) ns
  All-IsBehind order m n [] h ps = tt
  All-IsBehind order m n (x ∷ xs) h (p, ps) =
      (precedes_transitive order _ _ _ h p, All-IsBehind order m n xs h ps)

  insert_row-IsSorted :
      (order : SortOrder) (m : Message) (ms : List Message)
      → All (λ n. m.message_id ≢ n.message_id) ms
      → IsSorted order ms
      → IsSorted order (insert_row texts order m ms)
  unfolding insert_row
  insert_row-IsSorted order m [] new sorted = (tt, tt)
  insert_row-IsSorted order m (n ∷ ns) (differs, new) (behind, sorted) =
      elim (Bool-cases (precedes texts order (position_of m) (position_of n))) [
        | inl first ↦ rw first ((first, All-IsBehind order m n ns first behind), (behind, sorted))
        | inr later ↦ rw later (
          All-insert_row (IsBehind order n) order m ns
              (precedes_total order (position_of m) (position_of n) differs later) behind,
          insert_row-IsSorted order m ns new sorted,
        )
      ]

  All-sort_rows {ℓ} :
      (P : Message → Type ℓ) (order : SortOrder) (ms : List Message)
      → All P ms
      → All P (sort_rows texts order ms)
  unfolding sort_rows
  All-sort_rows P order [] ps = tt
  All-sort_rows P order (m ∷ ms) (p, ps) =
      All-insert_row P order m (sort_rows texts order ms) p (All-sort_rows P order ms ps)

  pub sort_rows-IsSorted :
      (order : SortOrder) (ms : List Message)
      → AreDistinct ms
      → IsSorted order (sort_rows texts order ms)
  unfolding sort_rows
  sort_rows-IsSorted order [] d = tt
  sort_rows-IsSorted order (m ∷ ms) (new, d) =
      insert_row-IsSorted order m (sort_rows texts order ms) (All-sort_rows _ order ms new)
        (sort_rows-IsSorted order ms d)
