-- ===== src/UserWeb/Render/Controls/Account.antt =====
-- The controls of the upload, settings and backup views.
use infinite_image_hosting.Prelude.{String}
use infinite_image_hosting.UserWeb.Types.{User}
use infinite_image_hosting.UserWeb.Mapping.{Env}
use infinite_image_hosting.UserWeb.Page.{Page}
use infinite_image_hosting.UserWeb.Render.Controls.{Offers, offers_rules}
use infinite_image_hosting.UserWeb.Requests.Starts.{starts}
use infinite_image_hosting.UserWeb.Render.Upload.{upload_view}
use infinite_image_hosting.UserWeb.Render.Account.{settings_view, backup_view}

module _ (env : Env) (trim : String → String) (seen : Page) (u : User) where
  pub upload_view-Offers : Offers u (upload_view env seen u)
  unfolding upload_view
  upload_view-Offers = search (offers_rules, starts) depth 30

  pub backup_view-Offers : Offers u (backup_view seen)
  unfolding backup_view
  backup_view-Offers = search (offers_rules, starts) depth 30

  pub settings_view-Offers : Offers u (settings_view trim seen u)
  unfolding settings_view
  settings_view-Offers = search (offers_rules, starts) depth 40
