-- ===== src/UserWeb/Render/Controls/Frame.antt =====
-- The controls of the frame, the toast, the dashboard and the security page.
use infinite_image_hosting.Prelude.{Option, none, some, List}
use infinite_image_hosting.UserWeb.Types.{
  User, AppView, ApiUsage, PricingPlan, ToastState, ToastType, success, error, info,
}
use infinite_image_hosting.UserWeb.Mapping.{Env}
use infinite_image_hosting.UserWeb.Page.{Page}
use infinite_image_hosting.UserWeb.Html.{Element, toast_icon}
use infinite_image_hosting.UserWeb.Render.Controls.{Offers, offers_rules}
use infinite_image_hosting.UserWeb.Requests.Starts.{starts}
use infinite_image_hosting.UserWeb.Render.Layout.{
  MenuItem, item, divider_item, menu_entry, app_layout, toast_view,
}
use infinite_image_hosting.UserWeb.Render.Dashboard.{dashboard_view}
use infinite_image_hosting.UserWeb.Render.Landing.{security_view}

module _ (env : Env) (seen : Page) (u : User) where
  toast_icon-Offers : (type : ToastType) → Offers u (toast_icon type)
  unfolding toast_icon
  toast_icon-Offers success = search (offers_rules) depth 10
  toast_icon-Offers error = search (offers_rules) depth 10
  toast_icon-Offers info = search (offers_rules) depth 10

  pub toast_view-Offers : (toast : Option ToastState) → Offers u (toast_view toast)
  unfolding toast_view
  toast_view-Offers none = Offers.done
  toast_view-Offers (some t) = search (offers_rules, toast_icon-Offers, starts) depth 10

  pub security_view-Offers : Offers u security_view
  unfolding security_view
  security_view-Offers = search (offers_rules) depth 30

  pub dashboard_view-Offers :
      (usage : ApiUsage) (plans : List PricingPlan)
      → Offers u (dashboard_view env.floats u usage plans)
  unfolding dashboard_view
  dashboard_view-Offers usage plans = search (offers_rules) depth 40

  module _ (v : AppView) where
    menu_entry-Offers : (i : MenuItem) → Offers u (menu_entry env seen v i)
    unfolding menu_entry
    menu_entry-Offers (item id caption) = search (offers_rules, starts) depth 10
    menu_entry-Offers divider_item = search (offers_rules) depth 10

    pub app_layout-Offers :
        (children : List Element) → Offers u children → Offers u (app_layout env seen u v children)
    unfolding app_layout
    app_layout-Offers children h = search (offers_rules, menu_entry-Offers, starts) depth 30
