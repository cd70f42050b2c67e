-- ===== src/UserWeb/Render/Screens.antt =====
-- What App shows on each screen but the documents: the toast, and the landing page, the sign-in view or
-- the view of the console inside its frame.
use infinite_image_hosting.Prelude.{List, ◌++◌}
use infinite_image_hosting.UserWeb.Types.{
  User, AppView, dashboard, upload, gallery, pricing, api, security, backup, settings,
}
use infinite_image_hosting.UserWeb.Mapping.{Env}
use infinite_image_hosting.UserWeb.Page.{Page}
use infinite_image_hosting.UserWeb.Views.Gallery.{TextOps}
use infinite_image_hosting.UserWeb.Html.{Element}
use infinite_image_hosting.UserWeb.Render.Layout.{app_layout, toast_view}
use infinite_image_hosting.UserWeb.Render.Dashboard.{dashboard_view}
use infinite_image_hosting.UserWeb.Render.Upload.{upload_view}
use infinite_image_hosting.UserWeb.Render.Gallery.{gallery_view}
use infinite_image_hosting.UserWeb.Render.Pricing.{pricing_view}
use infinite_image_hosting.UserWeb.Render.ApiKeys.{api_view}
use infinite_image_hosting.UserWeb.Render.Account.{settings_view, backup_view}
use infinite_image_hosting.UserWeb.Render.Auth.{auth_view}
use infinite_image_hosting.UserWeb.Render.Landing.{landing_view, security_view}

module _ (ops : TextOps) (env : Env) where
  unfoldable pub view_of : (seen : Page) → User → AppView → List Element
  view_of seen user dashboard = dashboard_view env.floats user seen.usage seen.plans
  view_of seen user upload = upload_view env seen user
  view_of seen user gallery = gallery_view ops env seen
  view_of seen user pricing = pricing_view seen user
  view_of seen user api = api_view seen user
  view_of seen user security = security_view
  view_of seen user backup = backup_view seen
  view_of seen user settings = settings_view ops.trim seen user

  -- the whole page while the console is on the screen
  unfoldable pub console_page : (seen : Page) → User → AppView → List Element
  unfolding view_of
  console_page seen user view =
      toast_view seen.toast ++ app_layout env seen user view (view_of seen user view)

-- the same for the sign-in view and the landing page
unfoldable pub auth_page : (seen : Page) → List Element
auth_page seen = toast_view seen.toast ++ auth_view seen

unfoldable pub landing_page : (seen : Page) → List Element
landing_page seen = toast_view seen.toast ++ landing_view seen
