-- ===== src/UserWeb/Render/Events.antt =====
-- What the controls of the console may send.
use infinite_image_hosting.UserWeb.Types.{
  User, AppView, dashboard, upload, gallery, pricing, api, security, backup, settings,
}
use infinite_image_hosting.UserWeb.Mapping.{Env}
use infinite_image_hosting.UserWeb.Page.{Page}
use infinite_image_hosting.UserWeb.Views.Gallery.{TextOps}
use infinite_image_hosting.UserWeb.Render.Controls.{Offers, Offers-append}
use infinite_image_hosting.UserWeb.Render.Controls.Account.{
  upload_view-Offers, backup_view-Offers, settings_view-Offers,
}
use infinite_image_hosting.UserWeb.Render.Controls.Gallery.{gallery_view-Offers}
use infinite_image_hosting.UserWeb.Render.Controls.Pricing.{pricing_view-Offers, api_view-Offers}
use infinite_image_hosting.UserWeb.Render.Controls.Frame.{
  toast_view-Offers, security_view-Offers, dashboard_view-Offers, app_layout-Offers,
}
use infinite_image_hosting.UserWeb.Render.Screens.{view_of, console_page}

module _ (ops : TextOps) (env : Env) (seen : Page) (u : User) where
  view_of-Offers : (v : AppView) → Offers u (view_of ops env seen u v)
  unfolding view_of
  view_of-Offers dashboard = dashboard_view-Offers env seen u seen.usage seen.plans
  view_of-Offers upload = upload_view-Offers env ops.trim seen u
  view_of-Offers gallery = gallery_view-Offers ops env seen u
  view_of-Offers pricing = pricing_view-Offers env ops.trim seen u
  view_of-Offers api = api_view-Offers env ops.trim seen u
  view_of-Offers security = security_view-Offers env seen u
  view_of-Offers backup = backup_view-Offers env ops.trim seen u
  view_of-Offers settings = settings_view-Offers env ops.trim seen u

  -- On every page of the console, whatever is typed, picked, dropped or answered and whatever the
  -- server replies: an image is deleted and the destruction of the account is asked for only by a
  -- control that asks the user first, and only after a yes; and a control that is not disabled creates
  -- a key only for a user whose mail address is verified.
  pub console_controls : (v : AppView) → Offers u (console_page ops env seen u v)
  unfolding console_page
  console_controls v =
      Offers-append (toast_view-Offers env seen u seen.toast)
        (app_layout-Offers env seen u v (view_of ops env seen u v) (view_of-Offers v))
