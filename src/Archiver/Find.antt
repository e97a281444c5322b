-- ===== src/Archiver/Find.antt =====
-- Searching the archival cursors by their primary key.
use akave_crosschain_archive.Base.{
  ℕ, String, Bool, true, false, Option, none, some, List, [], ◌∷◌, if◌then◌else◌, ◌≡◌, refl, ◌∙◌,
  arith, eq_iff, inl, inr, Bool-cases,
}
use akave_crosschain_archive.Api.Order.{Collation}
use akave_crosschain_archive.Archiver.Store.{
  ArchivalRecord, is_for, upsert_archival_cursor, cursor_lt, insert_cursor, sort_cursors,
}

-- The first cursor of a protocol, a chain and a month.
unfoldable pub find_cursor : String → ℕ → String → List ArchivalRecord → Option ArchivalRecord
find_cursor protocol chain month [] = none
find_cursor protocol chain month (c ∷ cs) =
    if is_for protocol chain month c then some c else find_cursor protocol chain month cs

abbrev find_like : ArchivalRecord → List ArchivalRecord → Option ArchivalRecord
find_like c cs = find_cursor c.protocol c.chain_id c.year_month cs

-- The primary key: no two cursors are of the same protocol, chain and month.
abbrev pub AreKeyed : List ArchivalRecord → Type 0
AreKeyed [] = Unit
AreKeyed (c ∷ cs) = (find_like c cs ≡ none) × AreKeyed cs

-- `c` and `d` are of one key.
abbrev is_like : ArchivalRecord → ArchivalRecord → Bool
is_like c d = is_for c.protocol c.chain_id c.year_month d

is_like_sym : (c d : ArchivalRecord) → is_like c d ≡ is_like d c
is_like_sym c d = ground (
  arith,
  eq_iff c.protocol d.protocol,
  eq_iff d.protocol c.protocol,
  eq_iff c.year_month d.year_month,
  eq_iff d.year_month c.year_month,
)

is_like_key :
    (c d : ArchivalRecord)
    → is_like c d ≡ true
    → (d.protocol ≡ c.protocol) × (d.chain_id ≡ c.chain_id) × (d.year_month ≡ c.year_month)
is_like_key c d h = (
  ground (arith, eq_iff d.protocol c.protocol),
  ground (arith, eq_iff d.protocol c.protocol),
  ground (arith, eq_iff d.protocol c.protocol, eq_iff d.year_month c.year_month),
)

-- Cursors of one key answer alike.
is_for_like :
    (protocol : String) (chain : ℕ) (month : String) (c d : ArchivalRecord)
    → is_like c d ≡ true
    → is_for protocol chain month c ≡ is_for protocol chain month d
is_for_like protocol chain month c d h = let (p, n, m) = is_like_key c d h in rw (p, n, m) refl

find_like-like :
    (c d : ArchivalRecord) (cs : List ArchivalRecord)
    → is_like c d ≡ true
    → find_like c cs ≡ find_like d cs
find_like-like c d cs h = let (p, n, m) = is_like_key c d h in rw (p, n, m) refl

-- A cursor that fits where one of another key fits too.
is_for_other :
    (protocol : String) (chain : ℕ) (month : String) (c d : ArchivalRecord)
    → is_like c d ≡ false
    → is_for protocol chain month c ≡ true
    → is_for protocol chain month d ≡ false
is_for_other protocol chain month c d h k = ground (
  arith,
  eq_iff c.protocol protocol,
  eq_iff c.year_month month,
  eq_iff d.protocol protocol,
  eq_iff d.year_month month,
  eq_iff d.protocol c.protocol,
  eq_iff d.year_month c.year_month,
)

if_same {ℓ} :
    {A : Type ℓ} (b c : Bool) (x y z : A)
    → b ≡ c
    → (if b then x else z) ≡ (if b then x else (if c then y else z))
if_same true c x y z h = refl
if_same false c x y z h = rw (← h) refl

if_swap {ℓ} :
    {A : Type ℓ} (b c : Bool) (x y z : A)
    → (b ≡ true → c ≡ false)
    → (if c then y else (if b then x else z)) ≡ (if b then x else (if c then y else z))
if_swap true c x y z h = rw (h refl) refl
if_swap false c x y z h = refl

pub find_cursor-upsert :
    (protocol : String) (chain : ℕ) (month : String) (rec : ArchivalRecord)
    (cs : List ArchivalRecord)
    → find_cursor protocol chain month (upsert_archival_cursor rec cs)
      ≡ (if is_for protocol chain month rec then some rec else find_cursor protocol chain month cs)
unfolding find_cursor upsert_archival_cursor
find_cursor-upsert protocol chain month rec [] = refl
find_cursor-upsert protocol chain month rec (c ∷ cs) = elim (Bool-cases (is_like rec c)) [
  | inl same ↦ rw same (
      if_same (is_for protocol chain month rec) (is_for protocol chain month c) _ _ _
        (is_for_like protocol chain month rec c same))
  | inr other ↦
      rw (other, find_cursor-upsert protocol chain month rec cs)
        (if_swap (is_for protocol chain month rec) (is_for protocol chain month c) _ _ _
          (is_for_other protocol chain month rec c other))
]

module _ (texts : Collation) where
  find_cursor-insert :
      (protocol : String) (chain : ℕ) (month : String) (c : ArchivalRecord)
      (ds : List ArchivalRecord)
      → find_like c ds ≡ none
      → find_cursor protocol chain month (insert_cursor texts c ds)
        ≡ (if is_for protocol chain month c then some c else find_cursor protocol chain month ds)
  unfolding find_cursor insert_cursor
  find_cursor-insert protocol chain month c [] h = refl
  find_cursor-insert protocol chain month c (d ∷ ds) h = elim (Bool-cases (is_like c d)) [
    | inl same ↦ absurd (ground (arith, h, same))
    | inr other ↦
        let rest : find_like c ds ≡ none = (rw other at h) in
        elim (Bool-cases (cursor_lt texts c d)) [
          | inl first ↦ rw first refl
          | inr later ↦
              rw (later, find_cursor-insert protocol chain month c ds rest)
                (if_swap (is_for protocol chain month c) (is_for protocol chain month d) _ _ _
                  (is_for_other protocol chain month c d other))
        ]
  ]

  -- Sorting does not change what is found.
  pub find_cursor-sort :
      (protocol : String) (chain : ℕ) (month : String) (cs : List ArchivalRecord)
      → AreKeyed cs
      → find_cursor protocol chain month (sort_cursors texts cs)
        ≡ find_cursor protocol chain month cs
  unfolding find_cursor sort_cursors
  find_cursor-sort protocol chain month [] h = refl
  find_cursor-sort protocol chain month (c ∷ cs) (new, h) =
      let sorted = find_cursor-sort protocol chain month cs h in
      let absent : find_like c (sort_cursors texts cs) ≡ none =
        find_cursor-sort c.protocol c.chain_id c.year_month cs h ∙ new in
      find_cursor-insert protocol chain month c (sort_cursors texts cs) absent ∙ rw sorted refl

pub upsert_archival_cursor-AreKeyed :
    (rec : ArchivalRecord) (cs : List ArchivalRecord)
    → AreKeyed cs
    → AreKeyed (upsert_archival_cursor rec cs)
unfolding upsert_archival_cursor find_cursor
upsert_archival_cursor-AreKeyed rec [] h = (refl, tt)
upsert_archival_cursor-AreKeyed rec (c ∷ cs) (new, h) =
    elim (Bool-cases (is_for rec.protocol rec.chain_id rec.year_month c)) [
      | inl same ↦ rw same (find_like-like rec c cs same ∙ new, h)
      | inr other ↦ rw other (
        find_cursor-upsert c.protocol c.chain_id c.year_month rec cs
            ∙ rw (is_like_sym c rec, other) new,
        upsert_archival_cursor-AreKeyed rec cs h,
      )
    ]
