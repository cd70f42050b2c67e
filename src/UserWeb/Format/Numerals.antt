-- ===== src/UserWeb/Format/Numerals.antt =====
-- Reading a whole number that was printed.
use Prim.Native.Char.{Char, code}
use Prim.Native.String.append
use infinite_image_hosting.Prelude.{
  ℕ, zero, suc, ◌+◌, ◌-◌, ◌*◌, ◌/◌, ◌%◌, ◌<◌, ◌≡◌, ap, ◌∙◌, String, ◌<>◌, Bool-cases, inl, inr, leb,
  ltb, ◌&&◌, if◌then◌else◌, Option, none, some, arith,
}
use infinite_image_hosting.UserWeb.Format.{digit, show_from, show}

-- `Number(text)` at a text of decimal digits, the empty one among them, read after `acc`; `none` at
-- any other text.
unfoldable pub numeral_from : ℕ → String → Option ℕ
numeral_from acc String.[] = some acc
numeral_from acc (String.◌∷◌ c s) =
    let rest = numeral_from (acc * 10 + (code c - b'0')) s in
    if leb b'0' (code c) && leb (code c) b'9' then rest else none

unfoldable pub numeral : String → Option ℕ
unfolding numeral_from
numeral text = numeral_from 0 text

-- A digit in front of a text is its first character.
single-append : (c : Char) (rest : String) → String.◌∷◌ c String.[] <> rest ≡ String.◌∷◌ c rest
single-append c rest =
    append.cons c String.[] rest ∙ ap (λ (t : String). String.◌∷◌ c t) (append.nil rest)

numeral_from-digit :
    (d acc : ℕ) (rest : String)
    → d < 10
    → numeral_from acc (digit d <> rest) ≡ numeral_from (acc * 10 + d) rest
unfolding numeral_from
numeral_from-digit zero acc rest h =
    ap (numeral_from acc) (single-append "0" rest)
    ∙ ap (λ (n : ℕ). numeral_from n rest) (omega arith)
numeral_from-digit (suc zero) acc rest h =
    ap (numeral_from acc) (single-append "1" rest)
    ∙ ap (λ (n : ℕ). numeral_from n rest) (omega arith)
numeral_from-digit (suc (suc zero)) acc rest h =
    ap (numeral_from acc) (single-append "2" rest)
    ∙ ap (λ (n : ℕ). numeral_from n rest) (omega arith)
numeral_from-digit (suc (suc (suc zero))) acc rest h =
    ap (numeral_from acc) (single-append "3" rest)
    ∙ ap (λ (n : ℕ). numeral_from n rest) (omega arith)
numeral_from-digit (suc (suc (suc (suc zero)))) acc rest h =
    ap (numeral_from acc) (single-append "4" rest)
    ∙ ap (λ (n : ℕ). numeral_from n rest) (omega arith)
numeral_from-digit (suc (suc (suc (suc (suc zero))))) acc rest h =
    ap (numeral_from acc) (single-append "5" rest)
    ∙ ap (λ (n : ℕ). numeral_from n rest) (omega arith)
numeral_from-digit (suc (suc (suc (suc (suc (suc zero)))))) acc rest h =
    ap (numeral_from acc) (single-append "6" rest)
    ∙ ap (λ (n : ℕ). numeral_from n rest) (omega arith)
numeral_from-digit (suc (suc (suc (suc (suc (suc (suc zero))))))) acc rest h =
    ap (numeral_from acc) (single-append "7" rest)
    ∙ ap (λ (n : ℕ). numeral_from n rest) (omega arith)
numeral_from-digit (suc (suc (suc (suc (suc (suc (suc (suc zero)))))))) acc rest h =
    ap (numeral_from acc) (single-append "8" rest)
    ∙ ap (λ (n : ℕ). numeral_from n rest) (omega arith)
numeral_from-digit (suc (suc (suc (suc (suc (suc (suc (suc (suc zero))))))))) acc rest h =
    ap (numeral_from acc) (single-append "9" rest)
    ∙ ap (λ (n : ℕ). numeral_from n rest) (omega arith)
numeral_from-digit (suc (suc (suc (suc (suc (suc (suc (suc (suc (suc d)))))))))) acc rest h =
    absurd (omega arith)

numeral_from-show_from :
    (fuel n : ℕ) (rest : String)
    → n < fuel
    → numeral_from 0 (show_from fuel n rest) ≡ numeral_from n rest
unfolding show_from
numeral_from-show_from zero n rest h = absurd (omega arith)
numeral_from-show_from (suc fuel) n rest h = elim (Bool-cases (ltb n 10)) [
  | inl small ↦ rw small (
      numeral_from-digit n 0 rest (ground arith)
      ∙ ap (λ (k : ℕ). numeral_from k rest) (omega arith))
  | inr large ↦ rw large (
      numeral_from-show_from fuel (n / 10) (digit (n % 10) <> rest) (ground arith)
      ∙ numeral_from-digit (n % 10) (n / 10) rest (omega arith)
      ∙ ap (λ (k : ℕ). numeral_from k rest) (omega arith))
]

-- A printed whole number is read back.
pub numeral-show : (n : ℕ) → numeral (show n) ≡ some n
unfolding numeral show numeral_from
numeral-show n = numeral_from-show_from (suc n) n "" (omega arith)
