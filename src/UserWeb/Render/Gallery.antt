-- ===== src/UserWeb/Render/Gallery.antt =====
-- What GalleryView and ImageDetailView show.
use infinite_image_hosting.Prelude.{
  ◌<>◌, String, false, if◌then◌else◌, Option, none, some, List, [], ◌∷◌, ◌++◌, length,
}
use infinite_image_hosting.Async.Program.{Prog, run}
use infinite_image_hosting.UserWeb.Types.{ImageItem, public, private}
use infinite_image_hosting.UserWeb.Format.{show}
use infinite_image_hosting.UserWeb.Mapping.{Env, slice_to}
use infinite_image_hosting.UserWeb.Page.{Page, PrivacyFilter, all, only, Running}
use infinite_image_hosting.UserWeb.Views.Gallery.{
  TextOps, filtered_images, cycle_privacy_filter, set_query, select_image, deselect_image,
  LinkFormat, url, md, html, copy_link, delete_image, toggle_privacy, sign_image, same_privacy,
}
use infinite_image_hosting.UserWeb.Html.{
  Element, label, icon, button, asking_button, clickable, picture, text_input, fixed_input,
  shown_if, each,
}

-- What an input shows of a link; it differs from what `copyLink` copies as HTML.
unfoldable pub link_shown : LinkFormat → String → String
link_shown url u = u
link_shown md u = "![image](" <> (u <> ")")
link_shown html u = "<img src=\"" <> (u <> "\"/>")

abbrev format_name : LinkFormat → String
format_name url = "url"
format_name md = "md"
format_name html = "html"

unfoldable pub filter_caption : PrivacyFilter → String
filter_caption all = "全部"
filter_caption (only public) = "公开"
filter_caption (only private) = "私有"

-- `window.open` leaves the page as it is.
abbrev open_window : Running
open_window = Prog.stop

module _ (ops : TextOps) (env : Env) where
  unfoldable pub link_row : ImageItem → LinkFormat → List Element
  unfolding link_shown
  link_row img type =
      label (format_name type)
      ∷ fixed_input (link_shown type img.url)
      ∷ button "Copy" false (run (copy_link img.url type))
      ∷ []

  unfoldable pub image_detail_view : (seen : Page) → ImageItem → List Element
  unfolding link_row
  image_detail_view seen img =
      let hidden = same_privacy img.privacy private in
      (button "ChevronRight" false (run deselect_image)
        ∷ label img.name
        ∷ label (if hidden then "私有读取" else "公开读")
        ∷ picture img.url "Preview"
        ∷ button "Download" false open_window
        ∷ button (if hidden then "Unlock" else "Lock") false (run (toggle_privacy env seen img))
        ∷ asking_button "Trash2" (λ confirmed. run (delete_image seen confirmed img.id))
        ∷ label "访问链接 (Endpoint)"
        ∷ [])
      ++ (each (link_row img) (url ∷ md ∷ html ∷ [])
          ++ (button "颁发短期签名 URL (15M)" false (run (sign_image seen img.id))
              ∷ label "策略与审计"
              ∷ label "Referer 防盗链"
              ∷ label "校验中"
              ∷ label "盲水印注入"
              ∷ label ("OBJ: " <> slice_to 8 img.id)
              ∷ label "感知哈希 (pHash)"
              ∷ label "e2a4...9f1b"
              ∷ []))

  unfoldable pub image_card : ImageItem → List Element
  image_card img =
      (clickable (run (select_image img)) ∷ picture img.url img.name ∷ [])
      ++ (shown_if (same_privacy img.privacy private) (icon "Lock" ∷ [])
          ++ (label img.name ∷ label img.size ∷ label img.date ∷ []))

  -- the body below the search: the empty bucket, the empty result, or the cards
  unfoldable pub image_grid : (images filtered : List ImageItem) → List Element
  unfolding image_card
  image_grid [] filtered = label "当前 Bucket 还没有对象" ∷ label "上传第一张图片后，这里会展示真实对象、访问链接和审计策略。" ∷ []
  image_grid (i ∷ images) [] = label "没有匹配的对象" ∷ label "调整对象键关键词或切换公开/私有筛选后再试。" ∷ []
  image_grid (i ∷ images) (f ∷ filtered) = each image_card (f ∷ filtered)

  unfoldable pub image_list : (seen : Page) → List Element
  unfolding filtered_images filter_caption image_grid
  image_list seen =
      let filtered = filtered_images ops seen.gallery seen.images in
      text_input seen.gallery.query "检索对象键 (Object Key)..." (λ q. run (set_query q))
      ∷ button (filter_caption seen.gallery.privacy_filter) false (run cycle_privacy_filter)
      ∷ label ("共 " <> (show (length filtered) <> (" / " <> (show (length seen.images) <> " 个对象"))))
      ∷ image_grid seen.images filtered

  unfoldable pub gallery_of : (seen : Page) → Option ImageItem → List Element
  unfolding image_detail_view image_list
  gallery_of seen (some img) = image_detail_view seen img
  gallery_of seen none = image_list seen

  unfoldable pub gallery_view : (seen : Page) → List Element
  unfolding gallery_of
  gallery_view seen = gallery_of seen seen.gallery.selected
