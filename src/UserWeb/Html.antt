-- ===== src/UserWeb/Html.antt =====
-- What a view shows, in document order: the elements of the JSX that carry text, data or a handler.
-- Layout boxes, styling and decorating icons are left out; an icon that is all a button shows is
-- named. A handler is what runs when the element is used.
use mathlib.Core.List.{append_assoc}
use infinite_image_hosting.Prelude.{
  ◌≡◌, refl, ap, sym, ◌∙◌, ℕ, String, ◌<>◌, Bool, if◌then◌else◌, Option, List, [], ◌∷◌, ◌++◌,
}
use infinite_image_hosting.UserWeb.Types.{File, TagType, ToastType, success, error, info}
use infinite_image_hosting.UserWeb.Page.{Running}

pub data Element : Type 0 where
  label : String → Element
  badge : TagType → String → Element
  icon : String → Element
  -- a bar filled to this percentage
  bar : ℕ → Element
  picture : (src alt : String) → Element
  divider : Element
  button : (caption : String) → (disabled : Bool) → Running → Element
  -- a button whose handler first asks `window.confirm`
  asking_button : (caption : String) → (Bool → Running) → Element
  -- an entry of a menu, and whether it is the current one
  entry : (caption : String) → (active : Bool) → Running → Element
  -- a box with an `onClick`; what it holds follows
  clickable : Running → Element
  drop_zone : (over leave : Running) → (drop : List File → Running) → Element
  file_input : (accept : String) → (Option File → Running) → Element
  text_input : (value placeholder : String) → (String → Running) → Element
  fixed_input : (value : String) → Element
  -- a field of a form: its name, its type and what it starts with
  form_field : (name type placeholder start : String) → Element
  -- the button that submits a form; the handler reads the fields by their names
  submit_button : (caption : String) → (disabled : Bool) → ((String → String) → Running) → Element

-- `condition && elements`
abbrev pub shown_if : Bool → List Element → List Element
shown_if b xs = if b then xs else []

-- All of `rows.map(render)`, one after the other.
abbrev pub each {ℓ} : {A : Type ℓ} → (A → List Element) → List A → List Element
each render [] = []
each render (x ∷ xs) = render x ++ each render xs

-- `UsageMeter`
abbrev pub usage_meter : (caption current most unit : String) → ℕ → List Element
usage_meter caption current most unit percent =
    label caption ∷ label (current <> (" / " <> (most <> (" " <> unit)))) ∷ bar percent ∷ []

-- `Toast`
unfoldable pub toast_icon : ToastType → List Element
toast_icon success = icon "Check" ∷ []
toast_icon error = icon "AlertTriangle" ∷ []
toast_icon info = []

-- What each element gives, one after the other.
abbrev pub gather {ℓ} : {A : Type ℓ} → (Element → List A) → List Element → List A
gather give [] = []
gather give (x ∷ xs) = give x ++ gather give xs

pub gather-append {ℓ} :
    {A : Type ℓ} (give : Element → List A) (xs ys : List Element)
    → gather give (xs ++ ys) ≡ gather give xs ++ gather give ys
gather-append give [] ys = refl
gather-append give (x ∷ xs) ys =
    ap (λ r. give x ++ r) (gather-append give xs ys)
    ∙ sym (append_assoc (give x) (gather give xs) (gather give ys))

pub gather-parts {ℓ} :
    {A : Type ℓ} (give : Element → List A) (xs ys : List Element) {us vs : List A}
    → gather give xs ≡ us
    → gather give ys ≡ vs
    → gather give (xs ++ ys) ≡ us ++ vs
gather-parts give xs ys ex ey = gather-append give xs ys ∙ rw (ex, ey) refl
