-- ===== src/UserWeb/Format.antt =====
-- How App.tsx prints sizes, quotas, counts and percentages.
-- Division by a power of 1024 is exact on JavaScript's numbers, and so is the rounding of `toFixed`
-- after it. Where a quotient is not exact, JavaScript's operators are parameters (`Floats`).
pub mod Rounding
pub mod Numerals
use Prim.Native.Char.{code}
use infinite_image_hosting.Prelude.{
  ℕ, zero, suc, ◌+◌, ◌*◌, ◌/◌, ◌%◌, String, ◌<>◌, Option, none, some, ltb, leb, ◌==◌, if◌then◌else◌,
  min,
}

-- A number of JavaScript that is not negative: `numerator / (below + 1)`.
pub record Double : Type 0 where
  pub numerator : ℕ
  pub below : ℕ

abbrev pub denominator : Double → ℕ
denominator x = x.below + 1

-- JavaScript's `a / b` and `x * n`, which round.
pub record Floats : Type 0 where
  pub divide : ℕ → ℕ → Double
  pub times : Double → ℕ → Double

-- `Math.round(x)`
unfoldable pub math_round : Double → ℕ
math_round x = (2 * x.numerator + denominator x) / (2 * denominator x)

-- `x.toFixed(1)` in tenths
unfoldable pub to_fixed1 : Double → ℕ
to_fixed1 x = (20 * x.numerator + denominator x) / (2 * denominator x)

-- One decimal digit.
abbrev pub digit : ℕ → String
digit n =
    if n == 0
    then "0"
    else if n == 1
    then "1"
    else if n == 2
    then "2"
    else if n == 3
    then "3"
    else if n == 4
    then "4"
    else if n == 5
    then "5"
    else if n == 6
    then "6"
    else if n == 7
    then "7"
    else if n == 8
    then "8"
    else "9"

show_from : ℕ → ℕ → String → String
show_from zero n rest = rest
show_from (suc fuel) n rest =
    let more = show_from fuel (n / 10) (digit (n % 10) <> rest) in
    if ltb n 10 then digit n <> rest else more

-- `String(value)`: a number has at most as many digits as its value, plus one.
unfoldable pub show : ℕ → String
unfolding show_from
show n = show_from (suc n) n ""

-- `(value / unit).toFixed(1)` in tenths, for a unit that is a power of two: rounded, ties upwards.
unfoldable pub tenths : ℕ → ℕ → ℕ
tenths value unit = (value * 20 + unit) / (2 * unit)

-- `Math.round(value / unit)`: rounded, ties upwards.
unfoldable pub round_div : ℕ → ℕ → ℕ
round_div value unit = (value * 2 + unit) / (2 * unit)

-- A number of tenths, with its one decimal place.
unfoldable pub show_fixed1 : ℕ → String
unfolding show
show_fixed1 t = show (t / 10) <> ("." <> digit (t % 10))

-- `Number(text)` of the same, printed: a decimal place of 0 is dropped.
unfoldable pub show_number1 : ℕ → String
unfolding show show_fixed1
show_number1 t = if t % 10 == 0 then show (t / 10) else show_fixed1 t

abbrev pub kib : ℕ
kib = 1024

abbrev pub mib : ℕ
mib = 1048576

abbrev pub gib : ℕ
gib = 1073741824

abbrev pub tib : ℕ
tib = 1099511627776

unfoldable pub format_bytes : ℕ → String
unfolding tenths show_fixed1
format_bytes value =
    if ltb value mib
    then show_fixed1 (tenths value kib) <> " KB"
    else if ltb value gib
    then show_fixed1 (tenths value mib) <> " MB"
    else show_fixed1 (tenths value gib) <> " GB"

unfoldable pub format_quota_bytes : Option ℕ → String
unfolding format_bytes tenths round_div show show_number1
format_quota_bytes none = "不限量"
format_quota_bytes (some value) =
    if leb tib value
    then show_number1 (tenths value tib) <> "TB"
    else if leb gib value
    then show (round_div value gib) <> "GB"
    else format_bytes value

module _ (floats : Floats) where
  unfoldable pub format_quota_count : Option ℕ → String
  unfolding round_div show show_number1 to_fixed1
  format_quota_count none = "不限量"
  format_quota_count (some value) =
      if leb 100000000 value
      then show_number1 (to_fixed1 (floats.divide value 100000000)) <> "亿"
      else if leb 10000 value
      then show (round_div value 10000) <> "万"
      else show value

  -- `formatUsageCount`; the callers give the default 0 themselves
  unfoldable pub format_usage_count : ℕ → String
  unfolding format_quota_count
  format_usage_count value = format_quota_count (some value)

  unfoldable pub meter_percent : ℕ → Option ℕ → ℕ
  unfolding math_round
  meter_percent current none = 0
  meter_percent current (some most) =
      if leb most 0 then 0 else min 100 (math_round (floats.times (floats.divide current most) 100))
