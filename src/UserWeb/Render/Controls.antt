-- ===== src/UserWeb/Render/Controls.antt =====
-- What the controls of a render may start.
pub mod Account
pub mod Gallery
pub mod Pricing
pub mod Frame
use infinite_image_hosting.Prelude.{
  String, ℕ, if◌then◌else◌, Bool, true, false, ◌≡◌, Option, none, some, if_some, List, [], ◌∷◌,
  ◌++◌,
}
use infinite_image_hosting.UserWeb.Types.{File, User, TagType}
use infinite_image_hosting.UserWeb.Page.{Running}
use infinite_image_hosting.UserWeb.Requests.{Sends}
use infinite_image_hosting.UserWeb.Html
use infinite_image_hosting.UserWeb.Html.{Element, shown_if, each}

-- Whatever is typed, picked, dropped or answered, each control of the elements that is not disabled
-- sends only what the user may send: one that asks first sends what is allowed after a yes at a yes
-- only, and all others what is allowed without one.
pub data Offers (user : User) : List Element → Type 0 where
  done : Offers user []
  label : {t : String} {xs : List Element} → Offers user xs → Offers user (Element.label t ∷ xs)
  badge :
      {c : TagType} {t : String} {xs : List Element}
      → Offers user xs
      → Offers user (Element.badge c t ∷ xs)
  icon : {t : String} {xs : List Element} → Offers user xs → Offers user (Element.icon t ∷ xs)
  bar : {n : ℕ} {xs : List Element} → Offers user xs → Offers user (Element.bar n ∷ xs)
  picture :
      {src alt : String} {xs : List Element}
      → Offers user xs
      → Offers user (Element.picture src alt ∷ xs)
  divider : {xs : List Element} → Offers user xs → Offers user (Element.divider ∷ xs)
  fixed_input :
      {t : String} {xs : List Element} → Offers user xs → Offers user (Element.fixed_input t ∷ xs)
  form_field :
      {a b c d : String} {xs : List Element}
      → Offers user xs
      → Offers user (Element.form_field a b c d ∷ xs)
  button :
      {t : String} {b : Bool} {p : Running} {xs : List Element}
      → (b ≡ false → Sends user false p)
      → Offers user xs
      → Offers user (Element.button t b p ∷ xs)
  entry :
      {t : String} {b : Bool} {p : Running} {xs : List Element}
      → Sends user false p
      → Offers user xs
      → Offers user (Element.entry t b p ∷ xs)
  clickable :
      {p : Running} {xs : List Element}
      → Sends user false p
      → Offers user xs
      → Offers user (Element.clickable p ∷ xs)
  asking_button :
      {t : String} {p : Bool → Running} {xs : List Element}
      → ((b : Bool) → Sends user b (p b))
      → Offers user xs
      → Offers user (Element.asking_button t p ∷ xs)
  drop_zone :
      {over leave : Running} {drop : List File → Running} {xs : List Element}
      → Sends user false over
      → Sends user false leave
      → ((files : List File) → Sends user false (drop files))
      → Offers user xs
      → Offers user (Element.drop_zone over leave drop ∷ xs)
  file_input :
      {t : String} {p : Option File → Running} {xs : List Element}
      → ((o : Option File) → Sends user false (p o))
      → Offers user xs
      → Offers user (Element.file_input t p ∷ xs)
  text_input :
      {t h : String} {p : String → Running} {xs : List Element}
      → ((typed : String) → Sends user false (p typed))
      → Offers user xs
      → Offers user (Element.text_input t h p ∷ xs)
  submit_button :
      {t : String} {b : Bool} {p : (String → String) → Running} {xs : List Element}
      → (b ≡ false → (form : String → String) → Sends user false (p form))
      → Offers user xs
      → Offers user (Element.submit_button t b p ∷ xs)

module _ {user : User} where
  pub Offers-if :
      (b : Bool) (xs ys : List Element)
      → Offers user xs
      → Offers user ys
      → Offers user (if b then xs else ys)
  Offers-if true xs ys hx hy = hx
  Offers-if false xs ys hx hy = hy

  pub Offers-either :
      (b : Bool) {x y : Element} {xs : List Element}
      → Offers user (x ∷ xs)
      → Offers user (y ∷ xs)
      → Offers user ((if b then x else y) ∷ xs)
  Offers-either true hx hy = hx
  Offers-either false hx hy = hy

  pub Offers-if_some :
      {A : Type 0} (o : Option A) (xs : List Element) (f : A → List Element)
      → Offers user xs
      → ((a : A) → Offers user (f a))
      → Offers user (if_some o xs f)
  Offers-if_some none xs f h hf = h
  Offers-if_some (some a) xs f h hf = hf a

  pub Offers-shown_if :
      (b : Bool) (xs : List Element) → Offers user xs → Offers user (shown_if b xs)
  Offers-shown_if true xs h = h
  Offers-shown_if false xs h = Offers.done

  pub Offers-append :
      {xs ys : List Element} → Offers user xs → Offers user ys → Offers user (xs ++ ys)
  Offers-append Offers.done hy = hy
  Offers-append (Offers.label h) hy = Offers.label (Offers-append h hy)
  Offers-append (Offers.badge h) hy = Offers.badge (Offers-append h hy)
  Offers-append (Offers.icon h) hy = Offers.icon (Offers-append h hy)
  Offers-append (Offers.bar h) hy = Offers.bar (Offers-append h hy)
  Offers-append (Offers.picture h) hy = Offers.picture (Offers-append h hy)
  Offers-append (Offers.divider h) hy = Offers.divider (Offers-append h hy)
  Offers-append (Offers.fixed_input h) hy = Offers.fixed_input (Offers-append h hy)
  Offers-append (Offers.form_field h) hy = Offers.form_field (Offers-append h hy)
  Offers-append (Offers.button p h) hy = Offers.button p (Offers-append h hy)
  Offers-append (Offers.entry p h) hy = Offers.entry p (Offers-append h hy)
  Offers-append (Offers.clickable p h) hy = Offers.clickable p (Offers-append h hy)
  Offers-append (Offers.asking_button p h) hy = Offers.asking_button p (Offers-append h hy)
  Offers-append (Offers.file_input p h) hy = Offers.file_input p (Offers-append h hy)
  Offers-append (Offers.text_input p h) hy = Offers.text_input p (Offers-append h hy)
  Offers-append (Offers.submit_button p h) hy = Offers.submit_button p (Offers-append h hy)
  Offers-append (Offers.drop_zone p q r h) hy = Offers.drop_zone p q r (Offers-append h hy)

  pub Offers-each :
      {A : Type 0} (f : A → List Element)
      → ((x : A) → Offers user (f x))
      → (xs : List A) → Offers user (each f xs)
  Offers-each f h [] = Offers.done
  Offers-each f h (x ∷ xs) = Offers-append (h x) (Offers-each f h xs)

pub ruleset offers_rules = (
  Offers.done, Offers.label, Offers.badge, Offers.icon, Offers.bar, Offers.picture, Offers.divider,
  Offers.fixed_input, Offers.form_field, Offers.button, Offers.entry, Offers.clickable,
  Offers.asking_button, Offers.drop_zone, Offers.file_input, Offers.text_input,
  Offers.submit_button, Offers-if, Offers-shown_if, Offers-append, Offers-each, Offers-either,
  Offers-if_some,
)
