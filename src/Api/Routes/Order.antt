-- ===== src/Api/Routes/Order.antt =====
-- The order and the limit of the query of routes, of internal/api/stats_querier.go.
use akave_crosschain_archive.Base.{
  ℕ, zero, suc, ◌≤◌, ◌≡◌, inl, inr, ◌⊎◌, refl, ap, false, List, [], ◌∷◌, length, take, map, leb,
  arith, All, All-zip, All-take, All-map, Any, Bool-cases,
}
use akave_crosschain_archive.Api.Routes.{Route, is_on, insert_route, sort_routes}
use akave_crosschain_archive.Api.Routes.Counted.{AreApart}

insert_route-All :
    (P : Route → Type 0) (g : Route) (gs : List Route) → P g → All P gs → All P (insert_route g gs)
unfolding insert_route
insert_route-All P g [] p h = (p, tt)
insert_route-All P g (k ∷ gs) p (q, h) = elim (Bool-cases (leb k.counts.total g.counts.total)) [
  | inl e ↦ rw e (p, (q, h))
  | inr e ↦ rw e (q, insert_route-All P g gs p h)
]

pub sort_routes-All : (P : Route → Type 0) (gs : List Route) → All P gs → All P (sort_routes gs)
unfolding sort_routes
sort_routes-All P [] h = tt
sort_routes-All P (g ∷ gs) (p, h) = insert_route-All P g (sort_routes gs) p (sort_routes-All P gs h)

-- The numbers never rise.
abbrev pub AreDescending {ℓ} : {A : Type ℓ} → (A → ℕ) → List A → Type ℓ
AreDescending total [] = Unit
AreDescending total (x ∷ xs) = All (λ y. total y ≤ total x) xs × AreDescending total xs

pub AreDescending-take {ℓ} :
    {A : Type ℓ} (total : A → ℕ) (n : ℕ) (xs : List A)
    → AreDescending total xs
    → AreDescending total (take n xs)
AreDescending-take total zero xs h = tt
AreDescending-take total (suc n) [] h = tt
AreDescending-take total (suc n) (x ∷ xs) (p, h) =
    (All-take (λ y. total y ≤ total x) n xs p, AreDescending-take total n xs h)

pub AreDescending-map {ℓ κ} :
    {A : Type ℓ} {B : Type κ} (total : B → ℕ) (f : A → B) (xs : List A)
    → AreDescending (λ x. total (f x)) xs
    → AreDescending total (map f xs)
AreDescending-map total f [] h = tt
AreDescending-map total f (x ∷ xs) (p, h) =
    (All-map (λ y. total y ≤ total (f x)) f xs p, AreDescending-map total f xs h)

abbrev pub total_of : Route → ℕ
total_of g = g.counts.total

insert_route-AreDescending :
    (g : Route) (gs : List Route)
    → AreDescending total_of gs
    → AreDescending total_of (insert_route g gs)
unfolding insert_route
insert_route-AreDescending g [] h = (tt, tt)
insert_route-AreDescending g (k ∷ gs) (p, h) =
    elim (Bool-cases (leb k.counts.total g.counts.total)) [
      | inl e ↦
          let below : total_of k ≤ total_of g = ground arith in
          let all_below = All-zip (λ (x : Route) a b. omega (arith, a, below)) gs p p in
          rw e ((below, all_below), (p, h))
      | inr e ↦
          let above : total_of g ≤ total_of k = ground arith in
          rw e (
            insert_route-All (λ x. total_of x ≤ total_of k) g gs above p,
            insert_route-AreDescending g gs h,
          )
    ]

pub sort_routes-AreDescending : (gs : List Route) → AreDescending total_of (sort_routes gs)
unfolding sort_routes
sort_routes-AreDescending [] = tt
sort_routes-AreDescending (g ∷ gs) =
    insert_route-AreDescending g (sort_routes gs) (sort_routes-AreDescending gs)

insert_route-AreApart :
    (g : Route) (gs : List Route) → AreApart (g ∷ gs) → AreApart (insert_route g gs)
unfolding insert_route
insert_route-AreApart g [] h = h
insert_route-AreApart g (k ∷ gs) ((p, all), (q, rest)) =
    elim (Bool-cases (leb k.counts.total g.counts.total)) [
      | inl e ↦ rw e ((p, all), (q, rest))
      | inr e ↦
          let turned : is_on k.src_chain_id k.dst_chain_id g ≡ false = ground (arith, p) in
          rw e (
            insert_route-All (λ h. is_on k.src_chain_id k.dst_chain_id h ≡ false) g gs turned q,
            insert_route-AreApart g gs (all, rest),
          )
    ]

pub sort_routes-AreApart : (gs : List Route) → AreApart gs → AreApart (sort_routes gs)
unfolding sort_routes
sort_routes-AreApart [] h = tt
sort_routes-AreApart (g ∷ gs) (p, h) = insert_route-AreApart g (sort_routes gs) (
  sort_routes-All (λ h. is_on g.src_chain_id g.dst_chain_id h ≡ false) gs p,
  sort_routes-AreApart gs h,
)

pub take-AreApart : (n : ℕ) (gs : List Route) → AreApart gs → AreApart (take n gs)
take-AreApart zero gs h = tt
take-AreApart (suc n) [] h = tt
take-AreApart (suc n) (g ∷ gs) (p, h) =
    (All-take (λ k. is_on g.src_chain_id g.dst_chain_id k ≡ false) n gs p, take-AreApart n gs h)

insert_route-Any :
    (P : Route → Type 0) (g : Route) (gs : List Route) → Any P (g ∷ gs) → Any P (insert_route g gs)
unfolding insert_route
insert_route-Any P g [] h = h
insert_route-Any P g (k ∷ gs) h = elim (Bool-cases (leb k.counts.total g.counts.total)) [
  | inl e ↦ rw e h
  | inr e ↦ rw e (elim h [
    | inl p ↦ inr (insert_route-Any P g gs (inl p))
    | inr (inl q) ↦ inl q
    | inr (inr rest) ↦ inr (insert_route-Any P g gs (inr rest))
  ])
]

pub sort_routes-Any : (P : Route → Type 0) (gs : List Route) → Any P gs → Any P (sort_routes gs)
unfolding sort_routes
sort_routes-Any P [] h = absurd h
sort_routes-Any P (g ∷ gs) (inl p) = insert_route-Any P g (sort_routes gs) (inl p)
sort_routes-Any P (g ∷ gs) (inr h) =
    insert_route-Any P g (sort_routes gs) (inr (sort_routes-Any P gs h))

-- One of them has n messages, and all have at most m.
Any-below :
    (P : Route → Type 0) (n m : ℕ) (gs : List Route)
    → ((g : Route) → P g → total_of g ≡ n)
    → All (λ g. total_of g ≤ m) gs
    → Any P gs
    → n ≤ m
Any-below P n m [] total all h = absurd h
Any-below P n m (g ∷ gs) total (q, all) (inl p) = omega (arith, total g p, q)
Any-below P n m (g ∷ gs) total (q, all) (inr h) = Any-below P n m gs total all h

-- A route with n messages is among the first of a descending list, or these are as many as may be
-- and have no fewer messages each.
pub take-Any :
    (P : Route → Type 0) (n limit : ℕ) (gs : List Route)
    → ((g : Route) → P g → total_of g ≡ n)
    → AreDescending total_of gs
    → Any P gs
    → Any P (take limit gs)
      ⊎ (length (take limit gs) ≡ limit) × All (λ g. n ≤ total_of g) (take limit gs)
take-Any P n zero gs total sorted h = inr (refl, tt)
take-Any P n (suc limit) [] total sorted h = absurd h
take-Any P n (suc limit) (g ∷ gs) total sorted (inl p) = inl (inl p)
take-Any P n (suc limit) (g ∷ gs) total (below, sorted) (inr h) =
    elim (take-Any P n limit gs total sorted h) [
      | inl found ↦ inl (inr found)
      | inr (full, above) ↦ inr (ap suc full, (Any-below P n (total_of g) gs total below h, above))
    ]
