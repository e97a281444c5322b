-- ===== src/Archiver/Months.antt =====
-- The months of internal/archiver/archiver.go: month 0 is January 2020, where the scan starts, and
-- `AddDate(0, 1, 0)` is the next month. Times are Unix seconds in UTC.
use Prim.Native.String.{◌++◌ as ◌⧺◌}
use akave_crosschain_archive.Base.{
  ℕ, zero, suc, ◌+◌, ◌*◌, ◌/◌, ◌%◌, String, Bool, ◌&&◌, ◌||◌, not, ltb, ◌==◌, if◌then◌else◌,
}
use akave_crosschain_archive.Base.Decimal.{print_uint}

abbrev pub year_of : ℕ → ℕ
year_of k = 2020 + k / 12

-- 1 is January.
abbrev pub month_of : ℕ → ℕ
month_of k = k % 12 + 1

abbrev pub is_leap : ℕ → Bool
is_leap y = y % 4 == 0 && (not (y % 100 == 0) || y % 400 == 0)

abbrev pub days_in : ℕ → ℕ → ℕ
days_in year month =
    if month == 2
    then (if is_leap year then 29 else 28)
    else if month == 4 || month == 6 || month == 9 || month == 11
    then 30
    else 31

-- `monthStart.Unix()`
unfoldable pub month_start : ℕ → ℕ
month_start zero = 1577836800
month_start (suc k) = month_start k + 86400 * days_in (year_of k) (month_of k)

-- `monthStart.Format("2006-01")`
unfoldable pub year_month : ℕ → String
year_month k =
    print_uint (year_of k) ⧺ ((if ltb (month_of k) 10 then "-0" else "-") ⧺ print_uint (month_of k))
