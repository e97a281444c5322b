-- ===== src/Api/Messages/Select.antt =====
-- Filtered rows keep their order, and a page token selects exactly what comes behind its row.
use mathlib.Core.List.{Perm}
use mathlib.Core.List.Perm
use akave_crosschain_archive.Base.{
  All, Bool, true, false, ◌&&◌, List, [], ◌∷◌, ◌++◌, ◌≡◌, refl, ap, ◌∙◌, arith, inl, inr,
  Bool-cases,
}
use akave_crosschain_archive.Types.{Message}
use akave_crosschain_archive.Api.Messages.{select}
use akave_crosschain_archive.Api.Order.Sorted.{
  IsBehind, IsSorted, precedes_irreflexive, precedes_asymmetric,
}
use akave_crosschain_archive.Api.Order.{
  Collation, SortOrder, position_of, precedes, insert_row, sort_rows,
}

pub select-select :
    (p q : Message → Bool) (ms : List Message)
    → select (λ m. p m && q m) ms ≡ select q (select p ms)
unfolding select
select-select p q [] = refl
select-select p q (m ∷ ms) = ground (arith, select-select p q ms)

pub select-all :
    (p : Message → Bool) (ms : List Message) → select (λ m. p m && true) ms ≡ select p ms
unfolding select
select-all p [] = refl
select-all p (m ∷ ms) = ground (arith, select-all p ms)

select-append :
    (p : Message → Bool) (ms ns : List Message) → select p (ms ++ ns) ≡ select p ms ++ select p ns
unfolding select
select-append p [] ns = refl
select-append p (m ∷ ms) ns = ground (arith, select-append p ms ns)

select-none :
    (p : Message → Bool) (ms : List Message) → All (λ m. p m ≡ false) ms → select p ms ≡ []
unfolding select
select-none p [] h = refl
select-none p (m ∷ ms) (h, hs) = rw h (select-none p ms hs)

select-every :
    (p : Message → Bool) (ms : List Message) → All (λ m. p m ≡ true) ms → select p ms ≡ ms
unfolding select
select-every p [] h = refl
select-every p (m ∷ ms) (h, hs) = rw h (ap (λ l. m ∷ l) (select-every p ms hs))

select-skip :
    (p : Message → Bool) (m : Message) (ms : List Message)
    → p m ≡ false
    → select p (m ∷ ms) ≡ select p ms
unfolding select
select-skip p m ms h = rw h refl

All-select {ℓ} :
    (P : Message → Type ℓ) (p : Message → Bool) (ms : List Message) → All P ms → All P (select p ms)
unfolding select
All-select P p [] h = tt
All-select P p (m ∷ ms) (h, hs) = elim (Bool-cases (p m)) [
  | inl e ↦ rw e (h, All-select P p ms hs)
  | inr e ↦ rw e (All-select P p ms hs)
]

module _ (texts : Collation) (order : SortOrder) where
  pub select-IsSorted :
      (p : Message → Bool) (ms : List Message)
      → IsSorted texts order ms
      → IsSorted texts order (select p ms)
  unfolding select
  select-IsSorted p [] h = tt
  select-IsSorted p (m ∷ ms) (h, hs) = elim (Bool-cases (p m)) [
    | inl e ↦ rw e (All-select _ p ms h, select-IsSorted p ms hs)
    | inr e ↦ rw e (select-IsSorted p ms hs)
  ]

  -- The parts of a sorted list around a row.
  All-middle {ℓ} :
      (P : Message → Type ℓ) (m : Message) (ms ns : List Message) → All P (ms ++ m ∷ ns) → P m
  All-middle P m [] ns (h, hs) = h
  All-middle P m (n ∷ ms) ns (h, hs) = All-middle P m ms ns hs

  none_before :
      (m : Message) (ms ns : List Message)
      → IsSorted texts order (ms ++ m ∷ ns)
      → All (λ n. precedes texts order (position_of m) (position_of n) ≡ false) ms
  none_before m [] ns h = tt
  none_before m (n ∷ ms) ns (h, hs) = (
    precedes_asymmetric texts order (position_of n) (position_of m)
        (All-middle (IsBehind texts order n) m ms ns h),
    none_before m ms ns hs,
  )

  All-tail :
      (m : Message) (ms ns : List Message)
      → IsSorted texts order (ms ++ m ∷ ns)
      → All (IsBehind texts order m) ns
  All-tail m [] ns (h, hs) = h
  All-tail m (n ∷ ms) ns (h, hs) = All-tail m ms ns hs

  -- What comes behind a row of a sorted list is its tail from there.
  pub select_behind :
      (m : Message) (ms ns : List Message)
      → IsSorted texts order (ms ++ m ∷ ns)
      → select (λ n. precedes texts order (position_of m) (position_of n)) (ms ++ m ∷ ns) ≡ ns
  select_behind m ms ns h =
      let p = λ (n : Message). precedes texts order (position_of m) (position_of n) in
      select-append p ms (m ∷ ns)
      ∙ ap (λ l. l ++ select p (m ∷ ns)) (select-none p ms (none_before m ms ns h))
      ∙ select-skip p m ns (precedes_irreflexive texts order (position_of m))
      ∙ select-every p ns (All-tail m ms ns h)

select-cons :
    (p : Message → Bool) (m : Message) (ms ns : List Message)
    → Perm (select p ms) (select p ns)
    → Perm (select p (m ∷ ms)) (select p (m ∷ ns))
unfolding select
select-cons p m ms ns h = elim (Bool-cases (p m)) [ inl e ↦ rw e (Perm.cons m h) | inr e ↦ rw e h ]

select-swap :
    (p : Message → Bool) (m n : Message) (ms : List Message)
    → Perm (select p (n ∷ m ∷ ms)) (select p (m ∷ n ∷ ms))
unfolding select
select-swap p m n ms = elim (Bool-cases (p m)) [
  | inl e ↦ elim (Bool-cases (p n)) [
    | inl k ↦ rw (e, k) (Perm.swap m n (select p ms))
    | inr k ↦ rw (e, k) (Perm.refl (m ∷ select p ms))
  ]
  | inr e ↦ rw e (Perm.refl _)
]

select-insert_row :
    (texts : Collation) (order : SortOrder) (p : Message → Bool) (m : Message) (ms : List Message)
    → Perm (select p (insert_row texts order m ms)) (select p (m ∷ ms))
unfolding insert_row
select-insert_row texts order p m [] = Perm.refl _
select-insert_row texts order p m (n ∷ ns) =
    elim (Bool-cases (precedes texts order (position_of m) (position_of n))) [
      | inl first ↦ rw first (Perm.refl _)
      | inr later ↦ rw later (
          Perm.trans (select-cons p n _ _ (select-insert_row texts order p m ns))
            (select-swap p m n ns))
    ]

-- Sorting changes the order of what is selected, and nothing else.
pub select-sort_rows :
    (texts : Collation) (order : SortOrder) (p : Message → Bool) (ms : List Message)
    → Perm (select p (sort_rows texts order ms)) (select p ms)
unfolding sort_rows
select-sort_rows texts order p [] = Perm.refl _
select-sort_rows texts order p (m ∷ ms) =
    Perm.trans (select-insert_row texts order p m (sort_rows texts order ms))
      (select-cons p m _ _ (select-sort_rows texts order p ms))
