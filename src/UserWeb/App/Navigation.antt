-- ===== src/UserWeb/App/Navigation.antt =====
-- The ways from view to view, and what App does when an upload has succeeded.
use infinite_image_hosting.Prelude.{none, if_some, ◌∷◌}
use infinite_image_hosting.Async.Program.{set_state, detach, ◌>>◌}
use infinite_image_hosting.UserWeb.Types.{
  landing, docs, auth, app, AppView, dashboard, gallery, success, error as error_toast, ImageItem,
}
use infinite_image_hosting.UserWeb.Mapping.{Env}
use infinite_image_hosting.UserWeb.Page.{Page, Handler, put_view, show_toast}
use infinite_image_hosting.UserWeb.App.Account.{refresh_account}
use infinite_image_hosting.UserWeb.App.Images.{refresh_images}

unfoldable pub navigate : (seen : Page) → AppView → Handler (Unit {0})
navigate seen view =
    if_some seen.user (do set_state (put_view auth); show_toast "请先登录" error_toast)
      (λ _. set_state (put_view (app view)))

-- `openDocs`, `closeDocs`, the hash route and the button that leaves the documents
unfoldable pub open_docs : Handler (Unit {0})
open_docs =
    set_state
      (λ s. record s { browser = record s.browser { hash = "#/docs" }; current_view = docs })

unfoldable pub close_docs : Handler (Unit {0})
close_docs =
    set_state (λ s. record s { browser = record s.browser { hash = "" }; current_view = landing })

unfoldable pub leave_docs : (seen : Page) → Handler (Unit {0})
leave_docs seen = set_state (λ s. record s {
  browser = record s.browser { hash = "" };
  current_view = if_some seen.user auth (λ _. app dashboard);
})

-- `setCurrentView("auth")`, `setCurrentView("landing")`, and the toast's `onClose`
unfoldable pub to_auth : Handler (Unit {0})
to_auth = set_state (put_view auth)

unfoldable pub to_landing : Handler (Unit {0})
to_landing = set_state (put_view landing)

unfoldable pub close_toast : Handler (Unit {0})
close_toast = set_state (λ s. record s { toast = none })

module _ (env : Env) where
  -- `onUploadSuccess`: a closure over the render in which the upload began
  unfoldable pub on_upload_success : (seen : Page) → ImageItem → Handler (Unit {0})
  on_upload_success seen img = do
    set_state (λ s. record s { images = img ∷ s.images })
    show_toast "上传成功" success
    navigate seen gallery
    detach (refresh_images env seen)
    detach (refresh_account seen)
