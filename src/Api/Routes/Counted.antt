-- ===== src/Api/Routes/Counted.antt =====
-- The groups of the query of routes, of internal/api/stats_querier.go, and what they count.
use akave_crosschain_archive.Base.{
  ℕ, ◌≡◌, inl, inr, refl, sym, ◌∙◌, false, ◌&&◌, List, [], ◌∷◌, ◌==◌, if◌then◌else◌, arith, All,
  All-zip, Bool-cases,
}
use akave_crosschain_archive.Api.Routes.{
  RouteRow, Route, counted_row, no_counts, new_route, is_on, add_row, group_rows,
}
use akave_crosschain_archive.Api.Stats.{StatusBreakdown}

-- The counts of the rows from one chain to another.
unfoldable pub counts_on : ℕ → ℕ → List RouteRow → StatusBreakdown
counts_on src dst [] = no_counts
counts_on src dst (r ∷ rows) =
    if r.src_chain_id == src && r.dst_chain_id == dst
    then counted_row r (counts_on src dst rows)
    else counts_on src dst rows

-- The counts of the first group from one chain to another.
unfoldable pub counts_in : ℕ → ℕ → List Route → StatusBreakdown
counts_in src dst [] = no_counts
counts_in src dst (g ∷ gs) = if is_on src dst g then g.counts else counts_in src dst gs

-- No two groups are of one route.
abbrev pub AreApart : List Route → Type 0
AreApart [] = Unit
AreApart (g ∷ gs) =
    All (λ (h : Route). is_on g.src_chain_id g.dst_chain_id h ≡ false) gs × AreApart gs

counts_in-add_row :
    (src dst : ℕ) (r : RouteRow) (gs : List Route)
    → counts_in src dst (add_row r gs) ≡ (
        if r.src_chain_id == src && r.dst_chain_id == dst
        then counted_row r (counts_in src dst gs)
        else counts_in src dst gs)
unfolding counts_in add_row
counts_in-add_row src dst r [] = refl
counts_in-add_row src dst r (g ∷ gs) =
    let rest = counts_in-add_row src dst r gs in
    elim (Bool-cases (is_on r.src_chain_id r.dst_chain_id g)) [
      | inl same ↦ rw same (ground arith)
      | inr other ↦ rw (other, rest) (ground arith)
    ]

pub counts_in-group_rows :
    (src dst : ℕ) (rows : List RouteRow)
    → counts_in src dst (group_rows rows) ≡ counts_on src dst rows
unfolding counts_in group_rows counts_on
counts_in-group_rows src dst [] = refl
counts_in-group_rows src dst (r ∷ rows) =
    rw (counts_in-add_row src dst r (group_rows rows), counts_in-group_rows src dst rows) refl

All-add_row :
    (src dst : ℕ) (r : RouteRow) (gs : List Route)
    → is_on src dst (new_route r) ≡ false
    → All (λ (h : Route). is_on src dst h ≡ false) gs
    → All (λ (h : Route). is_on src dst h ≡ false) (add_row r gs)
unfolding add_row
All-add_row src dst r [] new h = (new, tt)
All-add_row src dst r (g ∷ gs) new (p, h) =
    elim (Bool-cases (is_on r.src_chain_id r.dst_chain_id g)) [
      | inl same ↦ rw same (p, h)
      | inr other ↦ rw other (p, All-add_row src dst r gs new h)
    ]

add_row-AreApart : (r : RouteRow) (gs : List Route) → AreApart gs → AreApart (add_row r gs)
unfolding add_row
add_row-AreApart r [] h = (tt, tt)
add_row-AreApart r (g ∷ gs) (p, h) = elim (Bool-cases (is_on r.src_chain_id r.dst_chain_id g)) [
  | inl same ↦ rw same (p, h)
  | inr other ↦
      let new : is_on g.src_chain_id g.dst_chain_id (new_route r) ≡ false = ground arith in
      rw other (All-add_row g.src_chain_id g.dst_chain_id r gs new p, add_row-AreApart r gs h)
]

pub group_rows-AreApart : (rows : List RouteRow) → AreApart (group_rows rows)
unfolding group_rows
group_rows-AreApart [] = tt
group_rows-AreApart (r ∷ rows) = add_row-AreApart r (group_rows rows) (group_rows-AreApart rows)

-- A group is found by its route.
own_counts :
    (gs : List Route)
    → AreApart gs
    → All (λ (g : Route). counts_in g.src_chain_id g.dst_chain_id gs ≡ g.counts) gs
unfolding counts_in
own_counts [] h = tt
own_counts (g ∷ gs) (apart, h) =
    (ground arith, All-zip (λ (k : Route) p q. ground (arith, p, q)) gs apart (own_counts gs h))

-- The group has the counts of the rows of its route.
abbrev pub IsCounted : List RouteRow → Route → Type 0
IsCounted rows g = g.counts ≡ counts_on g.src_chain_id g.dst_chain_id rows

pub group_rows-IsCounted : (rows : List RouteRow) → All (IsCounted rows) (group_rows rows)
group_rows-IsCounted rows =
    let own = own_counts (group_rows rows) (group_rows-AreApart rows) in
    All-zip (λ (g : Route) p q. sym p ∙ counts_in-group_rows g.src_chain_id g.dst_chain_id rows)
      (group_rows rows) own own
