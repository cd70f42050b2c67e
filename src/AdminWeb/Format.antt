-- ===== src/AdminWeb/Format.antt =====
-- formatBytes, formatMS and the texts of the number inputs.
use infinite_image_hosting.Prelude.{
  ℕ, ◌*◌, ◌/◌, ◌%◌, String, ◌<>◌, ltb, ◌==◌, if◌then◌else◌, Option, none, some, get_or, if_some,
  Bool,
}
use infinite_image_hosting.UserWeb.Format.{show, tenths, show_fixed1, round_div, kib, mib, gib, tib}
use infinite_image_hosting.UserWeb.Format.Numerals.{numeral}
use infinite_image_hosting.AdminWeb.Replies.{Num, whole, inexact}

unfoldable pub format_bytes : Option ℕ → String
unfolding tenths show_fixed1
format_bytes value =
    let n = get_or value 0 in
    if n == 0
    then "0 B"
    else if ltb n mib
    then show_fixed1 (tenths n kib) <> " KB"
    else if ltb n gib
    then show_fixed1 (tenths n mib) <> " MB"
    else if ltb n tib
    then show_fixed1 (tenths n gib) <> " GB"
    else show_fixed1 (tenths n tib) <> " TB"

-- Rounding a quotient by 1000 once or a few times gives the nearest whole number here: the quotient
-- is never closer to a half than JavaScript's numbers can tell.
unfoldable pub format_ms : Option ℕ → String
unfolding show round_div
format_ms value =
    let n = get_or value 0 in
    if n == 0
    then "0ms"
    else if ltb n 1000
    then show n <> "ms"
    else if ltb n 60000
    then show (round_div n 1000) <> "s"
    else if ltb n 3600000
    then show (round_div n 60000) <> "m"
    else show (round_div n 3600000) <> "h"

-- `(cents / 100).toFixed(2)`
unfoldable pub show_cents : ℕ → String
unfolding show
show_cents cents = show (cents / 100) <> ("." <> (show ((cents % 100) / 10) <> show (cents % 10)))

-- `value ? String(Math.round(value / unit)) : ""`
unfoldable pub to_input : ℕ → Option ℕ → String
unfolding show round_div
to_input unit value = let n = get_or value 0 in if n == 0 then "" else show (round_div n unit)

unfoldable pub bytes_to_gb_input : Option ℕ → String
unfolding to_input
bytes_to_gb_input value = to_input gib value

unfoldable pub bytes_to_mb_input : Option ℕ → String
unfolding to_input
bytes_to_mb_input value = to_input mib value

-- What `Number(text)` gives at a text that is not a plain numeral: `Math.round(Number(text) * unit)`
-- where that number is finite and positive, whether it is neither 0 nor NaN, and the rounded cents
-- of a price, 0 for NaN. Negative prices are not modelled.
pub record Numbers : Type 0 where
  pub scaled : String → ℕ → Option ℕ
  pub is_number : String → Bool
  pub cents : String → ℕ

module _ (numbers : Numbers) where
  -- `Number.isFinite(parsed) && parsed > 0 ? Math.round(parsed * unit) : null`
  unfoldable pub from_input : ℕ → String → Option ℕ
  unfolding numeral
  from_input unit value =
      if_some (numeral value) (numbers.scaled value unit)
        (λ n. if n == 0 then none else some (n * unit))

  unfoldable pub gb_input_to_bytes : String → Option ℕ
  unfolding from_input
  gb_input_to_bytes value = from_input gib value

  unfoldable pub mb_input_to_bytes : String → Option ℕ
  unfolding from_input
  mb_input_to_bytes value = from_input mib value

  unfoldable pub number_input_or_null : String → Option ℕ
  unfolding from_input
  number_input_or_null value = from_input 1 value

  -- `Math.round((Number(text) || 0) * 100)`
  unfoldable pub price_cents : String → ℕ
  unfolding numeral
  price_cents text = if_some (numeral text) (numbers.cents text) (λ n. n * 100)

  -- `Number(text) || fallback`
  unfoldable pub number_or : String → ℕ → Num
  unfolding numeral
  number_or text fallback =
      if_some (numeral text) (if numbers.is_number text then inexact text else whole fallback)
        (λ n. if n == 0 then whole fallback else whole n)
