-- ===== src/AdminWeb/Views/Moderation.antt =====
-- ImageModView: freezing and deleting images. An image's id stands in the path as it is.
use infinite_image_hosting.Prelude.{ℕ, String, ◌<>◌, if◌then◌else◌, truthy, none, some, [], map}
use infinite_image_hosting.Async.Program.{message_or, pure}
use infinite_image_hosting.AdminWeb.Calls
use infinite_image_hosting.AdminWeb.Text.{TextOps}
use infinite_image_hosting.AdminWeb.Page.{
  detach, ◌>>=◌, ◌>>◌, caught, ensured, AdminPage, Handler, set_views, good, bad,
}
use infinite_image_hosting.AdminWeb.Session.{admin_fetch}
use infinite_image_hosting.AdminWeb.Rows.{image_row}
use infinite_image_hosting.AdminWeb.Cells.{ModerationState}
use infinite_image_hosting.AdminWeb.Views.Reads.{trimmed_param}

abbrev set_moderation : (mount : ℕ) → (ModerationState → ModerationState) → Handler (Unit {0})
set_moderation mount f = set_views mount (λ v. record v { moderation = f v.moderation })

-- The inputs.
unfoldable pub set_image_keyword : (seen : AdminPage) → String → Handler (Unit {0})
unfolding set_views
set_image_keyword seen text = set_moderation seen.view_run (λ c. record c { keyword = text })

unfoldable pub set_image_filter : (seen : AdminPage) → String → Handler (Unit {0})
unfolding set_views
set_image_filter seen text = set_moderation seen.view_run (λ c. record c { status_filter = text })

module _ (ops : TextOps) where
  unfoldable pub load_images : (seen : AdminPage) → Handler (Unit {0})
  unfolding set_views admin_fetch image_row
  load_images seen =
      let cells = seen.views.moderation in
      caught
        (do
          payload ← admin_fetch (
              Calls.list_images (trimmed_param ops cells.keyword)
                (if truthy cells.status_filter then some cells.status_filter else none))
          set_moderation seen.view_run (λ c. record c {
            notice = none;
            total = payload.total;
            images = map image_row payload.items;
          }))
        (λ x. set_moderation seen.view_run (λ c. record c {
          images = [];
          total = 0;
          notice = bad (message_or "图片审核队列读取失败，请检查 API 服务。" x);
        }))

  unfoldable pub freeze_image : (seen : AdminPage) → (id : String) → Handler (Unit {0})
  unfolding set_views admin_fetch load_images
  freeze_image seen id = if truthy seen.views.moderation.processing_id then pure tt else (do
    set_moderation seen.view_run (λ c. record c { processing_id = id })
    ensured
        (caught
          (do
            done ← admin_fetch (Calls.freeze_image id)
            set_moderation seen.view_run
                (λ c. record c { notice = good ("对象 " <> (id <> " 已冻结。")) })
            detach (load_images seen))
          (λ x.
            set_moderation seen.view_run
              (λ c. record c { notice = bad (message_or "冻结失败，请检查后台服务。" x) })))
        (set_moderation seen.view_run (λ c. record c { processing_id = "" })))

  unfoldable pub delete_image : (seen : AdminPage) → (id : String) → Handler (Unit {0})
  unfolding set_views admin_fetch load_images
  delete_image seen id = if truthy seen.views.moderation.processing_id then pure tt else (do
    set_moderation seen.view_run (λ c. record c { processing_id = id })
    ensured
        (caught
          (do
            done ← admin_fetch (Calls.delete_image id)
            set_moderation seen.view_run
                (λ c. record c { notice = good ("对象 " <> (id <> " 已删除。")) })
            detach (load_images seen))
          (λ x.
            set_moderation seen.view_run
              (λ c. record c { notice = bad (message_or "删除失败，请检查后台服务。" x) })))
        (set_moderation seen.view_run (λ c. record c { processing_id = "" })))
