-- ===== src/UserWeb/Views/Gallery.antt =====
-- GalleryView: the filter over the images, and what is done with the selected image.
pub mod Actions
pub mod Filter
use infinite_image_hosting.Prelude.{
  String, ◌<>◌, Bool, true, false, not, ◌&&◌, ◌||◌, if◌then◌else◌, truthy, none, some, List, ◌∷◌,
  [], filter, any,
}
use infinite_image_hosting.Async.Program.{pure, set_state, fetch, try_catch, detach, ◌>>=◌, ◌>>◌}
use infinite_image_hosting.UserWeb.Mapping.{Env}
use infinite_image_hosting.UserWeb.Http
use infinite_image_hosting.UserWeb.Types.{
  ImageItem, ImagePrivacy, public, private, success, error as error_toast,
}
use infinite_image_hosting.UserWeb.Page.{
  Page, Handler, GalleryState, PrivacyFilter, all, only, show_toast, show_error,
}
use infinite_image_hosting.UserWeb.App.Images.{
  handle_delete_image, handle_toggle_privacy, handle_sign_image,
}

-- JavaScript's `trim` and `toLowerCase`, and `includes` as `contains text part`.
pub record TextOps : Type 0 where
  pub trim : String → String
  pub to_lower : String → String
  pub contains : String → String → Bool

abbrev pub same_privacy : ImagePrivacy → ImagePrivacy → Bool
same_privacy public public = true
same_privacy private private = true
same_privacy _ _ = false

abbrev pub matches_privacy : PrivacyFilter → ImageItem → Bool
matches_privacy all image = true
matches_privacy (only p) image = same_privacy image.privacy p

module _ (ops : TextOps) where
  abbrev pub matches_keyword : String → ImageItem → Bool
  matches_keyword query image =
      let keyword = ops.to_lower (ops.trim query) in
      not (truthy keyword)
      || any (λ value. ops.contains (ops.to_lower value) keyword)
          (image.id ∷ image.name ∷ image.date ∷ [])

  -- `filteredImages`
  unfoldable pub filtered_images : GalleryState → List ImageItem → List ImageItem
  filtered_images g =
      filter (λ image. matches_keyword g.query image && matches_privacy g.privacy_filter image)

abbrev pub next_filter : PrivacyFilter → PrivacyFilter
next_filter all = only public
next_filter (only public) = only private
next_filter (only private) = all

unfoldable pub set_gallery : (GalleryState → GalleryState) → Handler (Unit {0})
set_gallery f = set_state (λ s. record s { gallery = f s.gallery })

unfoldable pub cycle_privacy_filter : Handler (Unit {0})
cycle_privacy_filter = set_gallery (λ g. record g { privacy_filter = next_filter g.privacy_filter })

unfoldable pub set_query : String → Handler (Unit {0})
set_query query = set_gallery (λ g. record g { query = query })

unfoldable pub select_image : ImageItem → Handler (Unit {0})
select_image img = set_gallery (λ g. record g { selected = some img })

unfoldable pub deselect_image : Handler (Unit {0})
deselect_image = set_gallery (λ g. record g { selected = none })

-- The formats in which a link is copied, and their names in capitals.
pub data LinkFormat : Type 0 where
  url md html : LinkFormat

abbrev pub link_text : LinkFormat → String → String
link_text url u = u
link_text md u = "![image](" <> (u <> ")")
link_text html u = "<img src=\"" <> (u <> "\" alt=\"image\" />")

abbrev upper_name : LinkFormat → String
upper_name url = "URL"
upper_name md = "MD"
upper_name html = "HTML"

-- The clipboard may be missing or refuse: both end in the `catch`.
unfoldable pub copy_link : String → LinkFormat → Handler (Unit {0})
copy_link u type =
    try_catch
      (do
        _ ← fetch (Http.write_clipboard (link_text type u))
        show_toast ("已复制 " <> (upper_name type <> " 格式")) success)
      (λ _. show_toast "复制失败，请手动复制链接" error_toast)

-- `confirmed` is the answer to `window.confirm`
unfoldable pub delete_image : (seen : Page) → (confirmed : Bool) → String → Handler (Unit {0})
delete_image seen confirmed public_id =
    if not confirmed
    then pure tt
    else show_error "删除失败" (do
      handle_delete_image seen public_id
      set_gallery (λ g. record g { selected = none })
      show_toast "对象已删除" success)

abbrev pub other_privacy : ImagePrivacy → ImagePrivacy
other_privacy private = public
other_privacy public = private

abbrev privacy_toast : ImagePrivacy → String
privacy_toast private = "已切换为私有读取"
privacy_toast public = "已切换为公开读取"

unfoldable pub toggle_privacy : Env → (seen : Page) → ImageItem → Handler (Unit {0})
toggle_privacy env seen image = show_error "权限策略更新失败" (do
  updated ← handle_toggle_privacy env seen image.id (other_privacy image.privacy)
  set_gallery (λ g. record g { selected = some updated })
  show_toast (privacy_toast (other_privacy image.privacy)) success)

unfoldable pub sign_image : (seen : Page) → String → Handler (Unit {0})
sign_image seen public_id = show_error "签名链接生成失败" (do
  signed_url ← handle_sign_image seen public_id
  detach (copy_link signed_url url)
  show_toast "已复制 15 分钟签名 URL" success)
