-- ===== src/UserWeb/Format/Rounding.antt =====
-- What the printed sizes and percentages say of the values.
use native.Mathlib.Nat.{le-div_iff_mul-le, div-eq_of_lt-le}
use infinite_image_hosting.Prelude.{
  ℕ, suc, ◌+◌, ◌*◌, ◌/◌, ◌%◌, ◌≤◌, ◌<◌, ◌≡◌, ◌⊎◌, inl, inr, String, ◌<>◌, ltb, if◌then◌else◌, none,
  some, refl, sym, ap, ◌∙◌, zero, true, false, Bool-cases, arith,
}
use infinite_image_hosting.UserWeb.Format.{
  Double, denominator, Floats, math_round, tenths, digit, show, show_from, show_fixed1, kib, mib,
  gib, format_bytes, meter_percent,
}

-- A text that is a number with one decimal place and a unit, where the number of tenths is the one
-- nearest to `value / unit`, the larger of two that are equally near.

pub record Prints (text suffix : String) (value unit : ℕ) : Type 0 where
  pub whole : ℕ
  pub tenth : ℕ
  pub one_digit : tenth < 10
  pub text_is : text ≡ (show whole <> ("." <> show tenth)) <> suffix
  pub not_above : 2 * unit * (10 * whole + tenth) ≤ 20 * value + unit
  pub not_below : 20 * value < 2 * unit * (10 * whole + tenth) + unit

show-digit : (d : ℕ) → d < 10 → show d ≡ digit d
unfolding show show_from
show-digit zero h = refl
show-digit (suc zero) h = refl
show-digit (suc (suc zero)) h = refl
show-digit (suc (suc (suc zero))) h = refl
show-digit (suc (suc (suc (suc zero)))) h = refl
show-digit (suc (suc (suc (suc (suc zero))))) h = refl
show-digit (suc (suc (suc (suc (suc (suc zero)))))) h = refl
show-digit (suc (suc (suc (suc (suc (suc (suc zero))))))) h = refl
show-digit (suc (suc (suc (suc (suc (suc (suc (suc zero)))))))) h = refl
show-digit (suc (suc (suc (suc (suc (suc (suc (suc (suc zero))))))))) h = refl
show-digit (suc (suc (suc (suc (suc (suc (suc (suc (suc (suc n)))))))))) h = absurd (omega arith)

show_fixed1-show : (t : ℕ) → show_fixed1 t ≡ show (t / 10) <> ("." <> show (t % 10))
unfolding show_fixed1
show_fixed1-show t =
    ap (λ (d : String). show (t / 10) <> ("." <> d)) (sym (show-digit (t % 10) (omega arith)))

module _ (text suffix : String) (value t : ℕ) where
  prints :
      (unit : ℕ)
      → text ≡ show_fixed1 t <> suffix
      → 2 * unit * t ≤ 20 * value + unit
      → 20 * value < 2 * unit * t + unit
      → Prints text suffix value unit
  prints unit shown above below = record {
    whole = t / 10;
    tenth = t % 10;
    one_digit = omega arith;
    text_is = shown ∙ ap (λ (n : String). n <> suffix) (show_fixed1-show t);
    not_above = rw (parts) above;
    not_below = rw (parts) below;
  }
    where
      parts : 10 * (t / 10) + t % 10 ≡ t
      parts = omega arith

format_bytes-kib : (value : ℕ) → value < mib → Prints (format_bytes value) " KB" value kib
unfolding format_bytes tenths
format_bytes-kib value h =
    prints _ " KB" value (tenths value kib) kib (ground arith) (omega arith) (omega arith)

format_bytes-mib :
    (value : ℕ) → mib ≤ value → value < gib → Prints (format_bytes value) " MB" value mib
unfolding format_bytes tenths
format_bytes-mib value l h =
    prints _ " MB" value (tenths value mib) mib (ground arith) (omega arith) (omega arith)

format_bytes-gib : (value : ℕ) → gib ≤ value → Prints (format_bytes value) " GB" value gib
unfolding format_bytes tenths
format_bytes-gib value l =
    prints _ " GB" value (tenths value gib) gib (ground arith) (omega arith) (omega arith)

ltb-yes : (a b : ℕ) → a < b → ltb a b ≡ true
ltb-yes a b h = ground arith

ltb-no : (a b : ℕ) → b ≤ a → ltb a b ≡ false
ltb-no a b h = ground arith

below_or : (value bound : ℕ) → (value < bound) ⊎ (bound ≤ value)
below_or value bound = elim (Bool-cases (ltb value bound)) [
  | inl e ↦ inl (ground arith)
  | inr e ↦ inr (ground arith)
]

-- A size is printed in KB below 1048576 bytes, in MB from there and below 1073741824 bytes, and in GB
-- from there: as a number with one decimal place, the one nearest to the exact size in that unit,
-- which is 1024, 1048576 or 1073741824 bytes; of two that are equally near, the larger one.
pub format_bytes-nearest :
    (value : ℕ)
    → ((value < 1048576) × Prints (format_bytes value) " KB" value 1024)
      ⊎ ((1048576 ≤ value) × (value < 1073741824) × Prints (format_bytes value) " MB" value 1048576)
      ⊎ ((1073741824 ≤ value) × Prints (format_bytes value) " GB" value 1073741824)
format_bytes-nearest value = elim (below_or value mib) [
  | inl small ↦ inl (small, format_bytes-kib value small)
  | inr large ↦ elim (below_or value gib) [
    | inl middle ↦ inr (inl (large, middle, format_bytes-mib value large middle))
    | inr huge ↦ inr (inr (huge, format_bytes-gib value huge))
  ]
]

module _ (value : ℕ) where
  tenths-1023 : 1048423 ≤ value → value < 1048525 → tenths value kib ≡ 10239
  unfolding tenths
  tenths-1023 l h = omega arith

  tenths-1024 : 1048525 ≤ value → value < mib → tenths value kib ≡ 10240
  unfolding tenths
  tenths-1024 l h = omega arith

  tenths-1 : mib ≤ value → value < 1101005 → tenths value mib ≡ 10
  unfolding tenths
  tenths-1 l h = omega arith

  -- Around one MB the unit changes only at 1048576 bytes: from 1048423 bytes on a size is printed as
  -- "1023.9 KB", from 1048525 bytes on as "1024.0 KB", and from 1048576 to 1101004 bytes as "1.0 MB".
  pub format_bytes-near_mib :
      1048423 ≤ value
      → value < 1101005
      → format_bytes value ≡ (
          if ltb value 1048525
          then "1023.9 KB"
          else if ltb value 1048576
          then "1024.0 KB"
          else "1.0 MB")
  unfolding format_bytes show_fixed1 show show_from
  format_bytes-near_mib l h = elim (below_or value 1048525) [
    | inl a ↦ rw (ltb-yes value 1048525 a, ltb-yes value mib (omega arith), tenths-1023 l a) refl
    | inr b ↦ elim (below_or value mib) [
      | inl c ↦ rw (ltb-no value 1048525 b, ltb-yes value mib c, tenths-1024 b c) refl
      | inr d ↦
          rw
            (
              ltb-no value 1048525 b,
              ltb-no value mib d,
              ltb-yes value gib (omega arith),
              tenths-1 d h,
            )
            refl
    ]
  ]

-- What holds of JavaScript's operators, which round to the nearest number: a quotient is at least 1
-- exactly where it should be, a hundred times a number from 1 on is at least 100, and zero stays zero.
pub record IsRounding (floats : Floats) : Type 0 where
  pub from_one :
      (a b : ℕ) → 0 < b → b ≤ a → denominator (floats.divide a b) ≤ (floats.divide a b).numerator
  pub of_zero : (b : ℕ) → 0 < b → (floats.divide 0 b).numerator ≡ 0
  pub hundredfold :
      (x : Double)
      → denominator x ≤ x.numerator
      → 100 * denominator (floats.times x 100) ≤ (floats.times x 100).numerator
  pub zero_times : (x : Double) → x.numerator ≡ 0 → (floats.times x 100).numerator ≡ 0

math_round-hundred : (x : Double) → 100 * denominator x ≤ x.numerator → 100 ≤ math_round x
unfolding math_round
math_round-hundred x h = (le-div_iff_mul-le {k = 2 * denominator x} (omega arith)).1 (omega arith)

math_round-zero : (x : Double) → x.numerator ≡ 0 → math_round x ≡ 0
unfolding math_round
math_round-zero x h = div-eq_of_lt-le {k = 0} (2 * denominator x) (omega arith) (omega arith)

-- Where JavaScript's operators round as they should: the percentage of a meter is at most 100, it is
-- 100 wherever a limit that is not 0 is reached or passed, and it is 0 where nothing is used and
-- where there is no limit or one of 0.
pub meter_percent_bounds :
    (floats : Floats) (current most more : ℕ)
    → IsRounding floats
    → (meter_percent floats current (some most) ≤ 100)
      × (meter_percent floats (suc most + more) (some (suc most)) ≡ 100)
      × (meter_percent floats 0 (some most) ≡ 0)
      × (meter_percent floats current none ≡ 0)
      × (meter_percent floats current (some 0) ≡ 0)
unfolding meter_percent
meter_percent_bounds floats current most more laws = (ground arith, full, unused, refl, refl)
  where
    share : ℕ → ℕ → ℕ
    share a b = math_round (floats.times (floats.divide a b) 100)

    reached : 100 ≤ share (suc most + more) (suc most)
    reached = math_round-hundred _ (
        laws.hundredfold _ (laws.from_one (suc most + more) (suc most) (omega arith) (omega arith)))

    full : meter_percent floats (suc most + more) (some (suc most)) ≡ 100
    full = ground (arith, reached)

    none_used : 0 < most → share 0 most ≡ 0
    none_used h = math_round-zero _ (laws.zero_times _ (laws.of_zero most h))

    unused : meter_percent floats 0 (some most) ≡ 0
    unused = elim (below_or 0 most) [
      | inl some_limit ↦ ground (arith, none_used some_limit)
      | inr no_limit ↦ ground arith
    ]
