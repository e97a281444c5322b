-- ===== src/Archiver/Complete/Sweep.antt =====
-- The sweep over all protocols and chains, and the manifest.
use Prim.Native.String.{◌++◌ as ◌⧺◌}
use akave_crosschain_archive.Base.{All, ℕ, String, false, some, List, ◌++◌, ◌≡◌, Result, ok}
use akave_crosschain_archive.Base.Bytes.{Bytes}
use akave_crosschain_archive.Base.Table.{lookup}
use akave_crosschain_archive.Database.{Db}
use akave_crosschain_archive.Archiver.Complete.{months}
use akave_crosschain_archive.Archiver.Archived.{no_faults, Writes, IsArchived, AreApart}
use akave_crosschain_archive.Archiver.Cycle.{
  Formats, Archive, CycleFaults, archive_chains, archive_protocols, manifest_key,
}
use akave_crosschain_archive.Archiver.Store.{sort_cursors, build_manifest}
use akave_crosschain_archive.Api.Order.{Collation}

abbrev pub no_cycle_faults : CycleFaults
no_cycle_faults = record { month = λ _ _ _. no_faults; list = false; upload = false }

module _ (formats : Formats) (names : ℕ → String) (w : Writes formats) (now : ℕ) (db : Db)
    (current : ℕ) where
  abbrev pair : String → ℕ → Archive → Archive × ℕ × Result (Unit {0})
  pair protocol chain s = months formats names w now db protocol chain current 0 s

  abbrev chains_of : String → List ℕ → Archive × ℕ → Archive × ℕ
  chains_of = archive_chains formats names no_cycle_faults now current db

  abbrev all_of : List ℕ → List String → Archive × ℕ → Archive × ℕ
  all_of = archive_protocols formats names no_cycle_faults now current db

  -- No month of these chains has the file of the one month.
  abbrev pub AreChainsApart : String → ℕ → ℕ → List ℕ → String → Type 0
  AreChainsApart p c k chains protocol =
      All (λ d. AreApart formats names w now db p c k current protocol d) chains

  abbrev Archived : String → ℕ → ℕ → Archive → Type 0
  Archived = IsArchived formats names db

  -- The manifest that is stored is that of all cursors.
  abbrev pub HasManifest : Collation → Archive → Type 0
  HasManifest texts s =
      (bs : Bytes) × (formats.marshal (build_manifest now names (sort_cursors texts s.cursors))
        ≡ ok bs)
      × (lookup manifest_key s.objects ≡ some bs)
