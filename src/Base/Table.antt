-- ===== src/Base/Table.antt =====
-- A database table with a text as its primary key. The order of the rows is not specified, as in
-- SQL; the model keeps the rows in the order of their insertion.
use Prim.Native.String.{String}
use mathlib.Core.Path.{◌≡◌, refl, ◌∙◌}
use mathlib.Core.Logic.{inl, inr}
use mathlib.Core.Option.{Option, none, some}
use mathlib.Core.List.{List, [], ◌∷◌}
use native.Mathlib.Omega.{arith}
use text.Mathlib.Text.{◌==◌ as str_eq}
use text.Mathlib.TextEquality.{eq_iff}
use text.Mathlib.TextPositions.{eq_refl}
use akave_crosschain_archive.Base.Tests.{if◌then◌else◌, Bool-cases}

abbrev pub Table {ℓ} : Type ℓ → Type ℓ
Table V = List (String × V)

module _ {ℓ} {V : Type ℓ} where
  unfoldable pub lookup : String → Table V → Option V
  lookup k [] = none
  lookup k ((j, v) ∷ t) = if str_eq j k then some v else lookup k t

  -- INSERT … VALUES (k, v) ON CONFLICT (k) DO UPDATE SET the row to `merge` of the old one
  unfoldable pub upsert : String → V → (V → V) → Table V → Table V
  upsert k v merge [] = (k, v) ∷ []
  upsert k v merge ((j, w) ∷ t) =
      if str_eq j k then (j, merge w) ∷ t else (j, w) ∷ upsert k v merge t

  -- UPDATE … SET the row to `f` of the old one WHERE the key is k
  unfoldable pub update : String → (V → V) → Table V → Table V
  update k f [] = []
  update k f ((j, w) ∷ t) = if str_eq j k then (j, f w) ∷ t else (j, w) ∷ update k f t

  -- The row that an upsert leaves where the old row was `o`.
  abbrev pub merged : V → (V → V) → Option V → V
  merged v merge none = v
  merged v merge (some w) = merge w

  abbrev pub mapped : (V → V) → Option V → Option V
  mapped f none = none
  mapped f (some w) = some (f w)

  pub lookup-upsert :
      (k j : String) (v : V) (merge : V → V) (t : Table V)
      → lookup j (upsert k v merge t)
        ≡ (if str_eq k j then some (merged v merge (lookup k t)) else lookup j t)
  unfolding lookup upsert
  lookup-upsert k j v merge [] = ground arith
  lookup-upsert k j v merge ((i, w) ∷ t) =
      ground (arith, eq_iff k j, eq_iff i k, eq_iff i j, lookup-upsert k j v merge t)

  pub lookup-update :
      (k j : String) (f : V → V) (t : Table V)
      → lookup j (update k f t) ≡ (if str_eq k j then mapped f (lookup k t) else lookup j t)
  unfolding lookup update
  lookup-update k j f [] = ground arith
  lookup-update k j f ((i, w) ∷ t) =
      ground (arith, eq_iff k j, eq_iff i k, eq_iff i j, lookup-update k j f t)

  -- An upsert made twice is the upsert made once, if the merge keeps the row that was inserted and
  -- adds nothing the second time.
  pub upsert-upsert :
      (k : String) (v : V) (merge : V → V) (t : Table V)
      → merge v ≡ v
      → ((w : V) → merge (merge w) ≡ merge w)
      → upsert k v merge (upsert k v merge t) ≡ upsert k v merge t
  unfolding upsert
  upsert-upsert k v merge [] keeps again = ground (arith, eq_refl k, keeps)
  upsert-upsert k v merge ((j, w) ∷ t) keeps again =
      ground (arith, again w, upsert-upsert k v merge t keeps again)

  -- The primary key: no two rows have the same.
  abbrev pub IsKeyed : Table V → Type ℓ
  IsKeyed [] = Unit
  IsKeyed ((k, v) ∷ t) = (lookup k t ≡ none) × IsKeyed t

  pub upsert-IsKeyed :
      (k : String) (v : V) (merge : V → V) (t : Table V) → IsKeyed t → IsKeyed (upsert k v merge t)
  unfolding lookup upsert
  upsert-IsKeyed k v merge [] h = (refl, tt)
  upsert-IsKeyed k v merge ((j, w) ∷ t) (new, h) = elim (Bool-cases (str_eq j k)) [
    | inl e ↦ rw e (new, h)
    | inr e ↦ rw e (
      lookup-upsert k j v merge t ∙ ground (arith, eq_iff j k, eq_iff k j, new),
      upsert-IsKeyed k v merge t h,
    )
  ]

  pub update-IsKeyed : (k : String) (f : V → V) (t : Table V) → IsKeyed t → IsKeyed (update k f t)
  unfolding lookup update
  update-IsKeyed k f [] h = tt
  update-IsKeyed k f ((j, w) ∷ t) (new, h) = elim (Bool-cases (str_eq j k)) [
    | inl e ↦ rw e (new, h)
    | inr e ↦ rw e (
      lookup-update k j f t ∙ ground (arith, eq_iff j k, eq_iff k j, new),
      update-IsKeyed k f t h,
    )
  ]

pub ruleset table_laws = (lookup-upsert, lookup-update)
