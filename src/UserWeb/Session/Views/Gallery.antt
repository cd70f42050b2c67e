-- ===== src/UserWeb/Session/Views/Gallery.antt =====
-- The handlers of GalleryView and the tokens of the session.
use infinite_image_hosting.Prelude.{String, Bool}
use infinite_image_hosting.Async.Rules.{Holds}
use infinite_image_hosting.UserWeb.Rules.{Holds-call}
use infinite_image_hosting.UserWeb.Types.{ImageItem}
use infinite_image_hosting.UserWeb.Mapping.{Env}
use infinite_image_hosting.UserWeb.Http
use infinite_image_hosting.UserWeb.Page.{Page, GalleryState}
use infinite_image_hosting.UserWeb.Views.Gallery
use infinite_image_hosting.UserWeb.Session.InSync.{
  InSync, sync_steps, Holds-handle_delete_image, Holds-handle_toggle_privacy,
  Holds-handle_sign_image,
}
use infinite_image_hosting.UserWeb.Views.Gallery.{LinkFormat, link_text}

pub Holds-set_gallery : (f : GalleryState → GalleryState) → Holds InSync (Gallery.set_gallery f)
unfolding Gallery.set_gallery
Holds-set_gallery f = search sync_steps

pub Holds-cycle_privacy_filter : Holds InSync Gallery.cycle_privacy_filter
unfolding Gallery.cycle_privacy_filter
Holds-cycle_privacy_filter = search (sync_steps, Holds-set_gallery) depth 14

pub Holds-set_query : (query : String) → Holds InSync (Gallery.set_query query)
unfolding Gallery.set_query
Holds-set_query query = search (sync_steps, Holds-set_gallery) depth 14

pub Holds-select_image : (img : ImageItem) → Holds InSync (Gallery.select_image img)
unfolding Gallery.select_image
Holds-select_image img = search (sync_steps, Holds-set_gallery) depth 14

pub Holds-deselect_image : Holds InSync Gallery.deselect_image
unfolding Gallery.deselect_image
Holds-deselect_image = search (sync_steps, Holds-set_gallery) depth 14

pub Holds-copy_link :
    (link : String) (type : LinkFormat) → Holds InSync (Gallery.copy_link link type)
unfolding Gallery.copy_link
Holds-copy_link link type =
    search (sync_steps, Holds-call (Http.write_clipboard (link_text type link))) depth 14

pub Holds-delete_image :
    (seen : Page) (confirmed : Bool) (public_id : String)
    → Holds InSync (Gallery.delete_image seen confirmed public_id)
unfolding Gallery.delete_image
Holds-delete_image seen confirmed public_id =
    search (sync_steps, Holds-handle_delete_image, Holds-set_gallery) depth 14

pub Holds-toggle_privacy :
    (env : Env) (seen : Page) (image : ImageItem)
    → Holds InSync (Gallery.toggle_privacy env seen image)
unfolding Gallery.toggle_privacy
Holds-toggle_privacy env seen image =
    search (sync_steps, Holds-handle_toggle_privacy, Holds-set_gallery) depth 14

pub Holds-sign_image :
    (seen : Page) (public_id : String) → Holds InSync (Gallery.sign_image seen public_id)
unfolding Gallery.sign_image
Holds-sign_image seen public_id =
    search (sync_steps, Holds-handle_sign_image, Holds-copy_link) depth 14
