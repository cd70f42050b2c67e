-- ===== src/UserWeb/Requests/Views.antt =====
-- The requests of the upload view and the gallery.
use infinite_image_hosting.Prelude.{String, Bool, Option, none, some, List, [], ◌∷◌}
use infinite_image_hosting.Async.Within.{Stays}
use infinite_image_hosting.UserWeb.Types.{User, ImageItem, File}
use infinite_image_hosting.UserWeb.Mapping.{Env}
use infinite_image_hosting.UserWeb.Page.{Page, Handler, UploadState, GalleryState}
use infinite_image_hosting.UserWeb.Requests.{Allowed, Free, steps, yes}
use infinite_image_hosting.UserWeb.Requests.App.{
  Stays-show_toast, Stays-handle_resend_verification, Stays-handle_sign_image,
  Stays-handle_delete_image, Stays-handle_upload_file, Stays-handle_toggle_privacy,
  Stays-on_upload_success,
}
use infinite_image_hosting.UserWeb.Views.Upload
use infinite_image_hosting.UserWeb.Views.Gallery
use infinite_image_hosting.UserWeb.Views.Gallery.{LinkFormat, link_text}

module _ (user : User) (confirmed : Bool) where
  pub Stays-set_upload :
      (f : UploadState → UploadState) → Stays (Allowed user confirmed) Free (Upload.set_upload f)
  unfolding Upload.set_upload
  Stays-set_upload f = search (steps) depth 16

  Stays-handle_upload :
      (on_file : File → Handler ImageItem) (on_success : ImageItem → Handler (Unit {0}))
      (on_error : String → Handler (Unit {0})) (file : Option File)
      → ((f : File) → Stays (Allowed user confirmed) Free (on_file f))
      → ((i : ImageItem) → Stays (Allowed user confirmed) Free (on_success i))
      → ((message : String) → Stays (Allowed user confirmed) Free (on_error message))
      → Stays (Allowed user confirmed) Free (Upload.handle_upload on_file on_success on_error file)
  unfolding Upload.handle_upload
  Stays-handle_upload on_file on_success on_error none hf hs he = search (steps) depth 16
  Stays-handle_upload on_file on_success on_error (some file) hf hs he =
      search (steps, Stays-set_upload, hf, hs, he) depth 16

  pub Stays-upload :
      (env : Env) (seen : Page) (file : Option File)
      → Stays (Allowed user confirmed) Free (Upload.upload env seen file)
  unfolding Upload.upload
  Stays-upload env seen file =
      Stays-handle_upload _ _ _ file (Stays-handle_upload_file user confirmed env seen)
        (Stays-on_upload_success user confirmed env seen)
        (λ message. Stays-show_toast user confirmed message _)

  pub Stays-drop_files :
      (env : Env) (seen : Page) (files : List File)
      → Stays (Allowed user confirmed) Free (Upload.drop_files env seen files)
  unfolding Upload.drop_files
  Stays-drop_files env seen [] = search (steps, Stays-set_upload, Stays-upload) depth 16
  Stays-drop_files env seen (file ∷ files) = search (steps, Stays-set_upload, Stays-upload) depth 16

  pub Stays-drag_over : Stays (Allowed user confirmed) Free (Upload.drag_over)
  unfolding Upload.drag_over
  Stays-drag_over = search (steps, Stays-set_upload) depth 16

  pub Stays-drag_leave : Stays (Allowed user confirmed) Free (Upload.drag_leave)
  unfolding Upload.drag_leave
  Stays-drag_leave = search (steps, Stays-set_upload) depth 16

  pub Stays-on_resend_verification :
      (user_id : String)
      → Stays (Allowed user confirmed) Free (Upload.on_resend_verification user_id)
  unfolding Upload.on_resend_verification
  Stays-on_resend_verification user_id = search (steps, Stays-handle_resend_verification) depth 16

  pub Stays-resend_at_upload :
      (user_id : String) → Stays (Allowed user confirmed) Free (Upload.resend_verification user_id)
  unfolding Upload.resend_verification
  Stays-resend_at_upload user_id =
      search (steps, Stays-set_upload, Stays-on_resend_verification) depth 16

  pub Stays-set_gallery :
      (f : GalleryState → GalleryState)
      → Stays (Allowed user confirmed) Free (Gallery.set_gallery f)
  unfolding Gallery.set_gallery
  Stays-set_gallery f = search (steps) depth 16

  pub Stays-cycle_privacy_filter :
      Stays (Allowed user confirmed) Free (Gallery.cycle_privacy_filter)
  unfolding Gallery.cycle_privacy_filter
  Stays-cycle_privacy_filter = search (steps, Stays-set_gallery) depth 16

  pub Stays-set_query :
      (query : String) → Stays (Allowed user confirmed) Free (Gallery.set_query query)
  unfolding Gallery.set_query
  Stays-set_query query = search (steps, Stays-set_gallery) depth 16

  pub Stays-select_image :
      (img : ImageItem) → Stays (Allowed user confirmed) Free (Gallery.select_image img)
  unfolding Gallery.select_image
  Stays-select_image img = search (steps, Stays-set_gallery) depth 16

  pub Stays-deselect_image : Stays (Allowed user confirmed) Free (Gallery.deselect_image)
  unfolding Gallery.deselect_image
  Stays-deselect_image = search (steps, Stays-set_gallery) depth 16

  pub Stays-copy_link :
      (link : String) (type : LinkFormat)
      → Stays (Allowed user confirmed) Free (Gallery.copy_link link type)
  unfolding Gallery.copy_link
  Stays-copy_link link type = search (steps, Stays-show_toast) depth 16

  pub Stays-delete_image :
      (seen : Page) (public_id : String)
      → Stays (Allowed user confirmed) Free (Gallery.delete_image seen confirmed public_id)
  unfolding Gallery.delete_image
  Stays-delete_image seen public_id =
      search (steps, yes, Stays-show_toast, Stays-set_gallery, Stays-handle_delete_image) depth 16

  pub Stays-toggle_privacy :
      (env : Env) (seen : Page) (img : ImageItem)
      → Stays (Allowed user confirmed) Free (Gallery.toggle_privacy env seen img)
  unfolding Gallery.toggle_privacy
  Stays-toggle_privacy env seen img =
      search (steps, Stays-show_toast, Stays-set_gallery, Stays-handle_toggle_privacy) depth 16

  pub Stays-sign_image :
      (seen : Page) (public_id : String)
      → Stays (Allowed user confirmed) Free (Gallery.sign_image seen public_id)
  unfolding Gallery.sign_image
  Stays-sign_image seen public_id =
      search (steps, Stays-show_toast, Stays-copy_link, Stays-handle_sign_image) depth 16
