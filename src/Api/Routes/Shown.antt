-- ===== src/Api/Routes/Shown.antt =====
-- The statistics of routes, `GetRoutesStats` of internal/api/stats_querier.go, against the tables.
use akave_crosschain_archive.Base.{
  ℕ, ◌≤◌, ◌≡◌, ◌⊎◌, inl, inr, refl, ap, ◌∙◌, true, false, ◌&&◌, List, [], ◌∷◌, length, take, map,
  ◌==◌, arith, length-take-le, length-map, All, All-zip, All-take, All-map, Any, Any-zip, Any-map,
  Any-each, String, Bool-cases, ok,
}
use akave_crosschain_archive.Database.{Db}
use akave_crosschain_archive.Api.Messages.{page_limit}
use akave_crosschain_archive.Api.Routes.{
  Route, RouteRow, is_on, group_rows, sort_routes, route_rows, top_routes, route_stats,
  compute_routes_stats,
}
use akave_crosschain_archive.Api.Routes.Counted.{
  AreApart, IsCounted, counts_in, counts_in-group_rows, group_rows-AreApart, group_rows-IsCounted,
}
use akave_crosschain_archive.Api.Routes.Numbers.{
  number_of, is_any, AreNumbersOf, counts_on-AreNumbersOf,
}
use akave_crosschain_archive.Api.Routes.Order.{
  AreDescending, AreDescending-take, AreDescending-map, total_of, sort_routes-All, sort_routes-Any,
  sort_routes-AreDescending, sort_routes-AreApart, take-AreApart, take-Any,
}
use akave_crosschain_archive.Api.Stats.{Floats, StatsFilter, RouteStats, RoutesStatsResult}

-- A route with counts is one of the groups.
counted_route :
    (src dst : ℕ) (gs : List Route)
    → 1 ≤ (counts_in src dst gs).total
    → Any (λ g. is_on src dst g ≡ true) gs
unfolding counts_in
counted_route src dst [] h = absurd (omega arith)
counted_route src dst (g ∷ gs) h = elim (Bool-cases (is_on src dst g)) [
  | inl here ↦ inl here
  | inr there ↦ inr (counted_route src dst gs (rw there at h))
]

module _ (f : StatsFilter) (db : Db) where
  -- The number of messages of a route.
  abbrev pub messages_on : ℕ → ℕ → ℕ
  messages_on src dst = number_of is_any f db src dst db.messages

  abbrev rows : List RouteRow
  rows = route_rows f db db.messages

  -- A group of the route, with its messages.
  abbrev IsRoute : ℕ → ℕ → Route → Type 0
  IsRoute src dst g =
      (g.src_chain_id ≡ src) × (g.dst_chain_id ≡ dst) × (total_of g ≡ messages_on src dst)

  named_route :
      (src dst : ℕ) (g : Route) → IsCounted rows g → is_on src dst g ≡ true → IsRoute src dst g
  named_route src dst g counts here =
      let src_is : g.src_chain_id ≡ src = ground arith in
      let dst_is : g.dst_chain_id ≡ dst = ground arith in
      (
        src_is,
        dst_is,
        ap (λ c. c.total) counts
            ∙ (counts_on-AreNumbersOf f db g.src_chain_id g.dst_chain_id db.messages).total_is
            ∙ rw (src_is, dst_is) refl,
      )

  group_rows-IsRoute :
      (src dst : ℕ)
      → 1 ≤ messages_on src dst
      → Any (IsRoute src dst) (sort_routes (group_rows rows))
  group_rows-IsRoute src dst h =
      let counted = counts_in-group_rows src dst rows in
      let numbers = (counts_on-AreNumbersOf f db src dst db.messages).total_is in
      let some_counted : 1 ≤ (counts_in src dst (group_rows rows)).total =
        rw (counted, numbers) h in
      sort_routes-Any (IsRoute src dst) (group_rows rows) (
        Any-zip (named_route src dst) (group_rows rows) (group_rows-IsCounted rows)
          (counted_route src dst (group_rows rows) some_counted))

module _ (F : Type 0) where
  -- No two of the routes are from one chain to one other.
  abbrev pub AreOnce : List (RouteStats F) → Type 0
  AreOnce [] = Unit
  AreOnce (s ∷ ss) =
      All
        (λ (t : RouteStats F).
          (t.src_chain_id == s.src_chain_id && t.dst_chain_id == s.dst_chain_id) ≡ false)
        ss
      × AreOnce ss

  -- The statistics of the routes in the tables.
  pub record AreStatsOf (f : StatsFilter) (db : Db) (r : RoutesStatsResult F) : Type 0 where
    pub counted :
        All
          (λ (s : RouteStats F).
            AreNumbersOf f db s.src_chain_id s.dst_chain_id db.messages s.counts)
          r.routes
    pub once : AreOnce r.routes
    pub sorted : AreDescending (λ (s : RouteStats F). s.counts.total) r.routes
    pub all_counted : r.total_routes ≡ length r.routes
    pub short : r.total_routes ≤ page_limit f.limit
    pub complete :
        (src dst : ℕ)
        → 1 ≤ messages_on f db src dst
        → Any (λ (s : RouteStats F). (s.src_chain_id ≡ src) × (s.dst_chain_id ≡ dst)) r.routes
          ⊎ (r.total_routes ≡ page_limit f.limit)
            × All (λ (s : RouteStats F). messages_on f db src dst ≤ s.counts.total) r.routes

module _ (F : Type 0) (floats : Floats F) where
  once_of :
      (protocol : String) (gs : List Route)
      → AreApart gs
      → AreOnce F (map (route_stats F floats protocol) gs)
  once_of protocol [] h = tt
  once_of protocol (g ∷ gs) (p, h) =
      (All-map _ (route_stats F floats protocol) gs p, once_of protocol gs h)

  -- If the query does not fail, the statistics of routes hold, for each route that they show, the
  -- numbers of the executed, the pending, the failed and all messages of the filter that go from its
  -- one chain to its other. No route is shown twice, the totals never rise, and there are no more
  -- routes than the limit. A route with a message is shown, unless there are as many as the limit,
  -- none with fewer messages.
  pub compute_routes_stats-AreStatsOf :
      (now : ℕ) (f : StatsFilter) (db : Db)
      → (r : RoutesStatsResult F) × (compute_routes_stats F floats false now f db ≡ ok r)
        × AreStatsOf F f db r
  unfolding compute_routes_stats top_routes
  compute_routes_stats-AreStatsOf now f db =
      let rows = route_rows f db db.messages in
      let sorted = sort_routes (group_rows rows) in
      let limit = page_limit f.limit in
      let show = route_stats F floats f.protocol in
      let shown = take limit sorted in
      let descending = sort_routes-AreDescending (group_rows rows) in
      let numbers =
        All-zip
          (λ (g : Route) p q.
            rw p (counts_on-AreNumbersOf f db g.src_chain_id g.dst_chain_id db.messages))
          (group_rows rows) (group_rows-IsCounted rows) (group_rows-IsCounted rows) in
      (
        _,
        refl,
        record {
          counted =
              All-map _ show shown
                (All-take _ limit sorted (sort_routes-All _ (group_rows rows) numbers));
          once = once_of f.protocol shown (
              take-AreApart limit sorted
                (sort_routes-AreApart (group_rows rows) (group_rows-AreApart rows)));
          sorted =
              AreDescending-map _ show shown (AreDescending-take total_of limit sorted descending);
          all_counted = refl;
          short = rw (length-map show shown) (length-take-le limit sorted);
          complete = λ src dst h.
              elim (take-Any (IsRoute f db src dst) (messages_on f db src dst) limit sorted
                (λ g p. p.2) descending (group_rows-IsRoute f db src dst h)) [
                  | inl found ↦
                      inl (Any-map _ show shown (Any-each (λ g p. (p.0, p.1)) shown found))
                  | inr (full, above) ↦
                      inr (length-map show shown ∙ full, All-map _ show shown above)
                ];
        },
      )
