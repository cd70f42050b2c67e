-- ===== src/AdminWeb/Views/Plans/Inputs.antt =====
-- What the inputs of a plan's form give back of the numbers that were put into them.
use infinite_image_hosting.Prelude.{
  ℕ, zero, suc, ◌*◌, ◌==◌, ◌≡◌, refl, ap, ◌∙◌, if◌then◌else◌, Option, none, some, false, arith,
}
use infinite_image_hosting.UserWeb.Format.{show, round_div}
use infinite_image_hosting.UserWeb.Format.Numerals.{numeral, numeral_from, numeral-show}
use infinite_image_hosting.AdminWeb.Format.{
  Numbers, to_input, from_input, number_input_or_null, price_cents,
}
use infinite_image_hosting.AdminWeb.Views.Plans.Form.{count_input}

-- A number of bytes in whole units, none of them for "without limit".
abbrev pub whole_units : ℕ → Option ℕ → Option ℕ
whole_units unit none = none
whole_units unit (some value) =
    if round_div value unit == 0 then none else some (round_div value unit * unit)

from_input-show :
    (numbers : Numbers) (unit n : ℕ)
    → from_input numbers unit (show n) ≡ (if n == 0 then none else some (n * unit))
unfolding from_input
from_input-show numbers unit n = rw (numeral-show n) refl

from_input-empty : (numbers : Numbers) (unit : ℕ) → from_input numbers unit "" ≡ none
unfolding from_input numeral numeral_from
from_input-empty numbers unit = refl

nonzero : (n : ℕ) → (suc n == 0) ≡ false
nonzero n = ground arith

to_input-suc : (unit n : ℕ) → to_input unit (some (suc n)) ≡ show (round_div (suc n) unit)
unfolding to_input
to_input-suc unit n = rw (nonzero n) refl

to_input-none : (unit : ℕ) → to_input unit none ≡ ""
unfolding to_input
to_input-none unit = refl

to_input-zero : (unit : ℕ) → to_input unit (some zero) ≡ ""
unfolding to_input
to_input-zero unit = refl

-- What a form puts into an input and reads from it again is the nearest number of whole units, and
-- nothing where that is none.
pub from_input-to_input :
    (numbers : Numbers) (unit : ℕ) (value : Option ℕ)
    → round_div 0 unit ≡ 0
    → from_input numbers unit (to_input unit value) ≡ whole_units unit value
from_input-to_input numbers unit none h =
    ap (from_input numbers unit) (to_input-none unit) ∙ from_input-empty numbers unit
from_input-to_input numbers unit (some zero) h =
    rw h (ap (from_input numbers unit) (to_input-zero unit) ∙ from_input-empty numbers unit)
from_input-to_input numbers unit (some (suc n)) h =
    ap (from_input numbers unit) (to_input-suc unit n)
    ∙ from_input-show numbers unit (round_div (suc n) unit)

-- A count of requests, 0 for none.
abbrev pub whole_count : Option ℕ → Option ℕ
whole_count none = none
whole_count (some n) = if n == 0 then none else some n

count_input-suc : (n : ℕ) → count_input (some (suc n)) ≡ show (suc n)
unfolding count_input
count_input-suc n = rw (nonzero n) refl

count_input-none : count_input none ≡ ""
unfolding count_input
count_input-none = refl

count_input-zero : count_input (some zero) ≡ ""
unfolding count_input
count_input-zero = refl

-- A count that a form shows is read back from it; 0 is read as no limit.
pub from_input-count_input :
    (numbers : Numbers) (value : Option ℕ)
    → number_input_or_null numbers (count_input value) ≡ whole_count value
unfolding number_input_or_null
from_input-count_input numbers none =
    ap (from_input numbers 1) count_input-none ∙ from_input-empty numbers 1
from_input-count_input numbers (some zero) =
    ap (from_input numbers 1) count_input-zero ∙ from_input-empty numbers 1
from_input-count_input numbers (some (suc n)) =
    ap (from_input numbers 1) (count_input-suc n)
    ∙ from_input-show numbers 1 (suc n)
    ∙ rw (nonzero n) (ap (λ (k : ℕ). some k) (omega arith))

-- A price in whole yuan, of one in cents.
abbrev pub whole_price : ℕ → ℕ
whole_price cents = round_div cents 100 * 100

pub price_cents-show :
    (numbers : Numbers) (cents : ℕ)
    → price_cents numbers (show (round_div cents 100)) ≡ whole_price cents
unfolding price_cents
price_cents-show numbers cents = rw (numeral-show (round_div cents 100)) refl
