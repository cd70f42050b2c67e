-- ===== src/AdminWeb/Html.antt =====
-- What a view of the administrators' console shows, in document order: the elements of the JSX that
-- carry text, data or a handler. Layout boxes, styling and decorating icons are left out.
use infinite_image_hosting.Prelude.{
  String, Bool, false, if◌then◌else◌, truthy, Option, if_some, List, [], ◌∷◌, ◌++◌,
}
use infinite_image_hosting.UserWeb.Types.{File}
use infinite_image_hosting.AdminWeb.Types.{ThemeTag, success, danger, Notice}
use infinite_image_hosting.AdminWeb.Page.{Running}

pub data Element : Type 0 where
  label : String → Element
  tag : ThemeTag → String → Element
  notice : ThemeTag → String → Element
  metric : (title value sub_value : String) → Element
  picture : (src alt : String) → Element
  column : (title : String) → Element
  button : (caption : String) → (disabled : Bool) → Running → Element
  -- an entry of the menu, and whether it is the current one
  entry : (caption : String) → (active : Bool) → Running → Element
  text_input : (value placeholder : String) → (String → Running) → Element
  fixed_input : (value : String) → Element
  choice : (value : String) → (options : List (String × String)) → (String → Running) → Element
  checkbox : (caption : String) → (checked disabled : Bool) → (Bool → Running) → Element
  file_input : (accept : String) → (disabled : Bool) → (Option File → Running) → Element

-- `condition && elements`
abbrev pub shown_if : Bool → List Element → List Element
shown_if b xs = if b then xs else []

-- All of `rows.map(render)`, one after the other.
abbrev pub each {ℓ} : {A : Type ℓ} → (A → List Element) → List A → List Element
each render [] = []
each render (x ∷ xs) = render x ++ each render xs

-- `NoticeBar`
unfoldable pub notice_bar : Option Notice → List Element
notice_bar shown = if_some shown [] (λ n. notice n.type n.text ∷ [])

abbrev success_or_danger : ThemeTag → ThemeTag
success_or_danger success = success
success_or_danger other = danger

-- The bar of a view that writes it out: what is no success looks like a danger.
unfoldable pub two_tone_bar : Option Notice → List Element
two_tone_bar shown = if_some shown [] (λ n. notice (success_or_danger n.type) n.text ∷ [])

-- The bar of a view whose notice is a text.
abbrev pub text_notice : ThemeTag → String → List Element
text_notice type text = shown_if (truthy text) (notice type text ∷ [])

-- `Card`
unfoldable pub card : (title : String) → (extra children : List Element) → List Element
card title extra children = label title ∷ (extra ++ children)

-- `FormItem`
unfoldable pub form_item : (caption help_text : String) → List Element → List Element
form_item caption help_text children =
    label caption ∷ (children ++ shown_if (truthy help_text) (label help_text ∷ []))

-- The text of a table without rows.
abbrev pub empty_row {ℓ} : {A : Type ℓ} → (empty_text : String) → List A → List Element
empty_row empty_text [] = label empty_text ∷ []
empty_row empty_text (x ∷ xs) = []

-- `Table`: the cells of a row are its `render`.
unfoldable pub table {ℓ} :
    {A : Type ℓ} → List String → (A → List Element) → List A → (empty_text : String) → List Element
table titles render rows empty_text =
    each (λ (t : String). column t ∷ []) titles ++ (each render rows ++ empty_row empty_text rows)

-- `Dialog`: the button without a caption is its cross.
unfoldable pub dialog :
    (visible : Bool)
    → (title : String) → (close confirm : Running) → (confirm_text : String)
    → (confirm_disabled : Bool) → List Element
    → List Element
dialog visible title close confirm confirm_text confirm_disabled children = shown_if visible (
    label title
    ∷ button "" false close
    ∷ (children ++ (button "取消" false close ∷ button confirm_text confirm_disabled confirm ∷ [])))

-- The rows of two texts that several views show.
abbrev pub pairs : List (String × String) → List Element
pairs rows = each (λ (r : String × String). label r.0 ∷ label r.1 ∷ []) rows
