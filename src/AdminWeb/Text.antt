-- ===== src/AdminWeb/Text.antt =====
-- The functions on texts that the administrators' console uses of JavaScript.
use Prim.Native.Char.{code}
use infinite_image_hosting.Prelude.{
  ℕ, String, ◌<>◌, ◌==◌, Bool, not, ◌||◌, if◌then◌else◌, ◌or◌, truthy, Option, if_some, List, [],
  ◌∷◌,
}
use infinite_image_hosting.UserWeb.Mapping.{slice_to}

-- `text.replace("T", " ")`: the first one only
unfoldable pub replace_t : String → String
replace_t String.[] = String.[]
replace_t (String.◌∷◌ c s) =
    let rest = replace_t s in if code c == b'T' then " " <> s else String.◌∷◌ c rest

-- `text.slice(n)`
unfoldable pub slice_from : ℕ → String → String
slice_from ℕ.zero s = s
slice_from (ℕ.suc n) String.[] = String.[]
slice_from (ℕ.suc n) (String.◌∷◌ c s) = slice_from n s

-- `time?.replace("T", " ").slice(0, 19) || "-"`
unfoldable pub show_time : Option String → String
unfolding replace_t slice_to
show_time time = if_some time "" (λ t. slice_to 19 (replace_t t)) or "-"

-- `time?.replace("T", " ").slice(11, 19) || "-"`
unfoldable pub show_clock : Option String → String
unfolding replace_t slice_to slice_from
show_clock time = if_some time "" (λ t. slice_from 11 (slice_to 19 (replace_t t))) or "-"

-- `texts.join(separator)`
unfoldable pub join : String → List String → String
join separator [] = ""
join separator (t ∷ []) = t
join separator (t ∷ (u ∷ ts)) = t <> (separator <> join separator (u ∷ ts))

-- `text.split(/[\n,]/)`, with the part read so far
unfoldable pub split_from : String → String → List String
split_from part String.[] = part ∷ []
split_from part (String.◌∷◌ c s) =
    let cut = part ∷ split_from "" s in
    let more = split_from (part <> String.◌∷◌ c String.[]) s in
    if code c == 10 || code c == b',' then cut else more

unfoldable pub split_domains : String → List String
unfolding split_from
split_domains text = split_from "" text

-- `text || "-"` at a text that may be missing
abbrev pub or_dash : Option String → String
or_dash o = if_some o "" (λ t. t) or "-"

-- JavaScript's `trim` and `toLowerCase`, and `includes` as `contains text part`.
pub record TextOps : Type 0 where
  pub trim : String → String
  pub to_lower : String → String
  pub contains : String → String → Bool

-- `!text.trim()`
abbrev pub blank : TextOps → String → Bool
blank ops text = not (truthy (ops.trim text))
