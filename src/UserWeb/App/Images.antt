-- ===== src/UserWeb/App/Images.antt =====
-- What App does with images: upload, list, delete, privacy, signed links.
use infinite_image_hosting.Prelude.{
  String, Bool, true, false, not, str_eq, if◌then◌else◌, truthy, List, map, filter,
}
use infinite_image_hosting.Async.Program.{error, pure, throw, set_state, fetch, ◌>>=◌, ◌>>◌}
use infinite_image_hosting.UserWeb.Types.{ImageItem, ImagePrivacy, private, File}
use infinite_image_hosting.UserWeb.Mapping.{Env, map_image}
use infinite_image_hosting.UserWeb.Http
use infinite_image_hosting.UserWeb.Page.{Page, Handler}

-- `nextPrivacy === "private"`
abbrev pub is_private : ImagePrivacy → Bool
is_private private = true
is_private _ = false

-- `current.filter((image) => image.id !== publicID)`
abbrev pub drop_image : String → List ImageItem → List ImageItem
drop_image public_id = filter (λ image. not (str_eq image.id public_id))

-- `current.map((item) => (item.id === publicID ? mapped : item))`
abbrev pub swap_image : String → ImageItem → List ImageItem → List ImageItem
swap_image public_id mapped = map (λ item. if str_eq item.id public_id then mapped else item)

unfoldable pub handle_delete_image : (seen : Page) → String → Handler (Unit {0})
handle_delete_image seen public_id = if not (truthy seen.token) then throw (error "请先登录") else (do
  _ ← fetch (Http.delete_image public_id seen.token)
  set_state (λ s. record s { images = drop_image public_id s.images }))

unfoldable pub handle_sign_image : (seen : Page) → String → Handler String
handle_sign_image seen public_id =
    if not (truthy seen.token)
    then throw (error "请先登录")
    else fetch (Http.sign_image public_id seen.token)

module _ (env : Env) where
  unfoldable pub handle_upload_file : (seen : Page) → File → Handler ImageItem
  handle_upload_file seen file = if not (truthy seen.token) then throw (error "请先登录") else (do
    uploaded ← fetch (Http.upload_image file seen.token)
    pure (record (map_image env uploaded.image) { url = uploaded.raw_link }))

  unfoldable pub refresh_images : (seen : Page) → Handler (Unit {0})
  refresh_images seen = if not (truthy seen.token) then pure tt else (do
    image_list ← fetch (Http.list_images seen.token)
    set_state (λ s. record s { images = map (map_image env) image_list }))

  unfoldable pub handle_toggle_privacy : (seen : Page) → String → ImagePrivacy → Handler ImageItem
  handle_toggle_privacy seen public_id next_privacy =
      if not (truthy seen.token) then throw (error "请先登录") else (do
        image ← fetch (Http.patch_privacy public_id (is_private next_privacy) seen.token)
        set_state (λ s. record s { images = swap_image public_id (map_image env image) s.images })
        pure (map_image env image))
