-- ===== src/UserWeb/Screen.antt =====
-- What App renders: which view is on the screen, by the current view and the user.
pub mod Gate
use infinite_image_hosting.Prelude.{Option, none, some}
use infinite_image_hosting.UserWeb.Types.{View, docs, auth, app, AppView, dashboard, User}
use infinite_image_hosting.UserWeb.Page.{Page}

pub data Screen : Type 0 where
  docs_screen auth_screen landing_screen : Screen
  console : User → AppView → Screen

-- `activeAppView`
unfoldable pub active_app_view : View → AppView
active_app_view (app v) = v
active_app_view _ = dashboard

unfoldable pub screen_of : View → Option User → Screen
unfolding active_app_view
screen_of docs user = docs_screen
screen_of auth none = auth_screen
screen_of v none = landing_screen
screen_of v (some user) = console user (active_app_view v)

unfoldable pub screen : Page → Screen
unfolding screen_of
screen s = screen_of s.current_view s.user
