-- ===== src/Archiver/Complete.antt =====
-- The months of one protocol and chain in a cycle without faults, archiveChainProtocol of
-- internal/archiver/archiver.go: each month that has records is archived.
pub mod Sweep
use akave_crosschain_archive.Base.{
  ℕ, zero, suc, ◌+◌, ◌<◌, ◌≤◌, String, Bool, Option, none, some, List, [], ◌∷◌, ◌≡◌, ◌≢◌, refl, sym,
  subst, ap, ◌==◌, ok_inj, ◌∙◌, arith, inl, inr, Bool-cases, Result, ok,
}
use akave_crosschain_archive.Database.{Db}
use akave_crosschain_archive.Archiver.Cycle.{
  Formats, Archive, write_parquet, archive_file, archive_records, archive_month, archive_months,
  counted,
}
use akave_crosschain_archive.Archiver.Records.{ParquetRecord}
use akave_crosschain_archive.Archiver.Archived.{
  no_faults, Writes, records_of, IsArchived, AreApart, month_of_records, month_keeps,
  month_archives,
}

module _ (formats : Formats) (names : ℕ → String) (w : Writes formats) (now : ℕ) (db : Db) where
  -- The body of the loop never fails.
  month_done :
      (protocol : String) (chain k : ℕ) (rs : List ParquetRecord) (s : Archive)
      → (v : Option (Result (Unit {0}))) × ((archive_records formats names no_faults now protocol
            chain k
            (ok rs)
            s).1
          ≡ ok v)
  unfolding archive_records archive_file write_parquet
  month_done protocol chain k [] s = (none, refl)
  month_done protocol chain k (r ∷ rs) s = rw (w.writes r rs) (_, refl)

  -- The state behind a month, and what the month counts.
  abbrev behind : String → ℕ → ℕ → Archive → Archive
  behind protocol chain k s =
      (archive_records formats names no_faults now protocol chain k
        (ok (records_of protocol chain k db)) s).0

  abbrev count_of : String → ℕ → ℕ → Archive → ℕ
  count_of protocol chain k s =
      counted (month_done protocol chain k (records_of protocol chain k db) s).0

  abbrev pub months : String → ℕ → ℕ → ℕ → Archive → Archive × ℕ × Result (Unit {0})
  months protocol chain left k s =
      archive_months formats names (λ _. no_faults) now protocol chain left k db s

  month_pair :
      (protocol : String) (chain k : ℕ) (s : Archive)
      → archive_month formats names no_faults now protocol chain k db s ≡ (
        behind protocol chain k s,
        ok (month_done protocol chain k (records_of protocol chain k db) s).0,
      )
  month_pair protocol chain k s =
      let rs = records_of protocol chain k db in
      month_of_records formats names w now db protocol chain k rs s refl
      ∙ ap (λ r. (behind protocol chain k s, r)) (month_done protocol chain k rs s).1

  months_step :
      (protocol : String) (chain left k : ℕ) (s : Archive)
      → let next = months protocol chain left (suc k) (behind protocol chain k s) in
        months protocol chain (suc left) k s
        ≡ (next.0, count_of protocol chain k s + next.1, next.2)
  unfolding archive_months
  months_step protocol chain left k s = rw (month_pair protocol chain k s) refl

  pub months_done :
      (protocol : String) (chain left k : ℕ) (s : Archive)
      → (months protocol chain left k s).2 ≡ ok tt
  months_done protocol chain zero k s = unfold archive_months in refl
  months_done protocol chain (suc left) k s =
      rw (months_step protocol chain left k s) (months_done protocol chain left (suc k) _)

  pub months_keep :
      (p : String) (c j : ℕ) (protocol : String) (chain left k : ℕ) (s : Archive)
      → AreApart formats names w now db p c j (k + left) protocol chain
      → IsArchived formats names db p c j s
      → IsArchived formats names db p c j (months protocol chain left k s).0
  months_keep p c j protocol chain zero k s apart h = unfold archive_months in h
  months_keep p c j protocol chain (suc left) k s apart h =
      rw (months_step protocol chain left k s) (
        months_keep p c j protocol chain left (suc k) (behind protocol chain k s)
          (λ i l. apart i (omega arith))
          (month_keeps formats names w now db p c j protocol chain k
            (records_of protocol chain k db) s refl (apart k (omega arith)) h))

  month_counts :
      (protocol : String) (chain k : ℕ) (s : Archive)
      → records_of protocol chain k db ≢ []
      → IsArchived formats names db protocol chain k (behind protocol chain k s)
        × (count_of protocol chain k s ≡ 1)
  month_counts protocol chain k s h =
      let rs = records_of protocol chain k db in
      let (found, (v, e)) = month_archives formats names w now db protocol chain k rs s refl h in
      (found, ap counted (ok_inj (sym (month_done protocol chain k rs s).1 ∙ e)))

  pub months_archive :
      (protocol : String) (chain left k j : ℕ) (s : Archive)
      → k ≤ j
      → j < k + left
      → AreApart formats names w now db protocol chain j (k + left) protocol chain
      → records_of protocol chain j db ≢ []
      → (IsArchived formats names db protocol chain j (months protocol chain left k s).0)
        × (1 ≤ (months protocol chain left k s).1)
  months_archive protocol chain zero k j s h l apart some_records = absurd (omega arith)
  months_archive protocol chain (suc left) k j s h l apart some_records =
      rw (months_step protocol chain left k s) (elim (Bool-cases (k == j)) [
        | inl here ↦
            let same : k ≡ j = ground arith in
            let (found, counts) = month_counts protocol chain j s some_records in
            let found' =
              subst (λ i. IsArchived formats names db protocol chain j (behind protocol chain i s))
                (sym same) found in
            let counts' = subst (λ i. count_of protocol chain i s ≡ 1) (sym same) counts in
            (
              months_keep protocol chain j protocol chain left (suc k) (behind protocol chain k s)
                  (λ i m. apart i (omega arith)) found',
              omega (arith, counts'),
            )
        | inr later ↦
            let (found, counts) =
              months_archive protocol chain left (suc k) j (behind protocol chain k s)
                (ground arith) (omega arith) (λ i m. apart i (omega arith)) some_records in
            (found, omega (arith, counts))
      ])
