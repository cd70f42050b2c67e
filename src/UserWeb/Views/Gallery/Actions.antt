-- ===== src/UserWeb/Views/Gallery/Actions.antt =====
-- Deleting an image and switching its privacy.
use infinite_image_hosting.Prelude.{
  String, ◌≡◌, ◌⊎◌, refl, Bool, true, false, not, str_eq, eq_refl, truthy, none, some, List, [],
  ◌∷◌, ◌++◌, All, arith,
}
use infinite_image_hosting.Async.Program.{Outcome, ok, fail, Thrown, run}
use infinite_image_hosting.Async.Exec.{exec}
use infinite_image_hosting.UserWeb.Types.{ImageItem, ApiImage}
use infinite_image_hosting.UserWeb.Mapping.{Env, map_image}
use infinite_image_hosting.UserWeb.Http
use infinite_image_hosting.UserWeb.Http.{Request, Reply, Uploaded}
use infinite_image_hosting.UserWeb.Page.{Page, show_toast}
use infinite_image_hosting.UserWeb.App.Images.{
  handle_delete_image, handle_toggle_privacy, drop_image, swap_image, is_private,
}
use infinite_image_hosting.UserWeb.Views.Gallery.{delete_image, toggle_privacy, set_gallery}

-- None of the images has this id.
abbrev pub Lacks : String → List ImageItem → Type 0
Lacks public_id = All (λ image. str_eq image.id public_id ≡ false)

drop_image-Lacks :
    (public_id : String) (xs : List ImageItem) → Lacks public_id xs → drop_image public_id xs ≡ xs
drop_image-Lacks public_id [] h = refl
drop_image-Lacks public_id (x ∷ xs) h = rw (h.0, drop_image-Lacks public_id xs h.1)

drop_image-one :
    (xs ys : List ImageItem) (img : ImageItem)
    → Lacks img.id xs
    → Lacks img.id ys
    → drop_image img.id (xs ++ (img ∷ ys)) ≡ xs ++ ys
drop_image-one [] ys img hx hy = rw (eq_refl img.id, drop_image-Lacks img.id ys hy)
drop_image-one (x ∷ xs) ys img hx hy = rw (hx.0, drop_image-one xs ys img hx.1 hy)

swap_image-Lacks :
    (public_id : String) (new : ImageItem) (xs : List ImageItem)
    → Lacks public_id xs
    → swap_image public_id new xs ≡ xs
swap_image-Lacks public_id new [] h = refl
swap_image-Lacks public_id new (x ∷ xs) h = rw (h.0, swap_image-Lacks public_id new xs h.1)

swap_image-one :
    (xs ys : List ImageItem) (img new : ImageItem)
    → Lacks img.id xs
    → Lacks img.id ys
    → swap_image img.id new (xs ++ (img ∷ ys)) ≡ xs ++ (new ∷ ys)
swap_image-one [] ys img new hx hy = rw (eq_refl img.id, swap_image-Lacks img.id new ys hy)
swap_image-one (x ∷ xs) ys img new hx hy = rw (hx.0, swap_image-one xs ys img new hx.1 hy)

module _ (server : (r : Request) → Outcome (Reply r)) where
  -- If nothing else happens meanwhile, a signed-in user who confirms the deletion of an image whose
  -- id no other image has, and whose deletion the server accepts, has that image removed and the
  -- others kept in order, and no image selected.
  pub delete_removes_one :
      (s : Page) (xs ys : List ImageItem) (img : ImageItem)
      → truthy s.token ≡ true
      → s.images ≡ xs ++ (img ∷ ys)
      → Lacks img.id xs
      → Lacks img.id ys
      → server (Http.delete_image img.id s.token) ≡ ok tt
      → let after = exec server (λ t. t) (run (delete_image s true img.id)) s in
        (after.images ≡ xs ++ ys) × (after.gallery.selected ≡ none)
  unfolding delete_image handle_delete_image show_toast set_gallery
  delete_removes_one s xs ys img live shape hx hy good =
      ground (arith, drop_image-one xs ys img hx hy)

  -- A deletion that the user does not confirm, that is tried without a session, or that the server
  -- refuses keeps all images and the selection.
  pub delete_refused_keeps :
      (s : Page) (confirmed : Bool) (public_id : String) (x : Thrown)
      → (confirmed ≡ false)
        ⊎ (truthy s.token ≡ false)
        ⊎ (server (Http.delete_image public_id s.token) ≡ fail x)
      → let after = exec server (λ t. t) (run (delete_image s confirmed public_id)) s in
        (after.images ≡ s.images) × (after.gallery ≡ s.gallery)
  unfolding delete_image handle_delete_image show_toast set_gallery
  delete_refused_keeps s confirmed public_id x why = ground arith

  -- If nothing else happens meanwhile, with a session token that is not empty, switching the privacy
  -- of an image whose id no other image has asks the server for the other privacy and, if the server
  -- accepts, puts the server's image in the place of the old one and selects it.
  pub toggle_replaces_one :
      (env : Env) (s : Page) (xs ys : List ImageItem) (img : ImageItem) (new : ApiImage)
      → truthy s.token ≡ true
      → s.images ≡ xs ++ (img ∷ ys)
      → Lacks img.id xs
      → Lacks img.id ys
      → server (Http.patch_privacy img.id (not (is_private img.privacy)) s.token) ≡ ok new
      → let after = exec server (λ t. t) (run (toggle_privacy env s img)) s in
        (after.images ≡ xs ++ (map_image env new ∷ ys))
        × (after.gallery.selected ≡ some (map_image env new))
  unfolding toggle_privacy handle_toggle_privacy show_toast set_gallery
  toggle_replaces_one env s xs ys img new live shape hx hy good =
      ground (arith, swap_image-one xs ys img (map_image env new) hx hy)
