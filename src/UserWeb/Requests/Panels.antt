-- ===== src/UserWeb/Requests/Panels.antt =====
-- The requests of the views for plans, API keys, backups and settings.
use infinite_image_hosting.Prelude.{String, Bool, Option, none, some}
use infinite_image_hosting.Async.Within.{Stays}
use infinite_image_hosting.UserWeb.Types.{User, BillingCycle, File}
use infinite_image_hosting.UserWeb.Http
use infinite_image_hosting.UserWeb.Page.{Page, PricingState, ApiState, SettingsState}
use infinite_image_hosting.UserWeb.Requests.{Allowed, Free, steps, Stays-call, yes}
use infinite_image_hosting.UserWeb.Requests.App.{Stays-show_toast, Stays-handle_checkout}
use infinite_image_hosting.UserWeb.Requests.Views.{Stays-on_resend_verification}
use infinite_image_hosting.UserWeb.Views.Pricing
use infinite_image_hosting.UserWeb.Views.ApiKeys
use infinite_image_hosting.UserWeb.Views.Backup
use infinite_image_hosting.UserWeb.Views.Settings

module _ (user : User) (confirmed : Bool) where
  pub Stays-set_pricing :
      (f : PricingState → PricingState)
      → Stays (Allowed user confirmed) Free (Pricing.set_pricing f)
  unfolding Pricing.set_pricing
  Stays-set_pricing f = search (steps) depth 16

  pub Stays-refresh_orders :
      (token : String) → Stays (Allowed user confirmed) Free (Pricing.refresh_orders token)
  unfolding Pricing.refresh_orders
  Stays-refresh_orders token = search (steps, Stays-set_pricing) depth 16

  pub Stays-checkout :
      (seen : Page) (plan_slug : String) (cycle : BillingCycle)
      → Stays (Allowed user confirmed) Free (Pricing.checkout seen plan_slug cycle)
  unfolding Pricing.checkout
  Stays-checkout seen plan_slug cycle =
      search (steps, Stays-set_pricing, Stays-handle_checkout) depth 16

  pub Stays-set_api :
      (f : ApiState → ApiState) → Stays (Allowed user confirmed) Free (ApiKeys.set_api f)
  unfolding ApiKeys.set_api
  Stays-set_api f = search (steps) depth 16

  pub Stays-load_keys :
      (token : String) → Stays (Allowed user confirmed) Free (ApiKeys.load_keys token)
  unfolding ApiKeys.load_keys
  Stays-load_keys token = search (steps, Stays-show_toast, Stays-set_api) depth 16

  pub Stays-create_key :
      (token : String) → Stays (Allowed user confirmed) Free (ApiKeys.create_key user token)
  unfolding ApiKeys.create_key
  Stays-create_key token =
      search (steps, yes, Stays-show_toast, Stays-set_api, Stays-load_keys) depth 16

  pub Stays-revoke_key :
      (token : String) (key_id : String)
      → Stays (Allowed user confirmed) Free (ApiKeys.revoke_key token key_id)
  unfolding ApiKeys.revoke_key
  Stays-revoke_key token key_id = search (steps, Stays-show_toast, Stays-load_keys) depth 16

  pub Stays-resend_at_api :
      (user_id : String) → Stays (Allowed user confirmed) Free (ApiKeys.resend_verification user_id)
  unfolding ApiKeys.resend_verification
  Stays-resend_at_api user_id = search (steps, Stays-set_api, Stays-on_resend_verification) depth 16

  pub Stays-export_backup :
      (token : String) → Stays (Allowed user confirmed) Free (Backup.export_backup token)
  unfolding Backup.export_backup
  Stays-export_backup token = search (steps, Stays-show_toast) depth 16

  pub Stays-import_backup :
      (token : String) (file : Option File)
      → Stays (Allowed user confirmed) Free (Backup.import_backup token file)
  unfolding Backup.import_backup
  Stays-import_backup token none = search (steps) depth 16
  Stays-import_backup token (some file) = search (steps, Stays-show_toast) depth 16

  pub Stays-set_settings :
      (f : SettingsState → SettingsState)
      → Stays (Allowed user confirmed) Free (Settings.set_settings f)
  unfolding Settings.set_settings
  Stays-set_settings f = search (steps) depth 16

  pub Stays-avatar_loaded :
      (next_url : String) → Stays (Allowed user confirmed) Free (Settings.avatar_loaded next_url)
  unfolding Settings.avatar_loaded
  Stays-avatar_loaded next_url = search (steps, Stays-show_toast, Stays-set_settings) depth 16

  pub Stays-handle_avatar_file :
      (file : Option File) → Stays (Allowed user confirmed) Free (Settings.handle_avatar_file file)
  unfolding Settings.handle_avatar_file
  Stays-handle_avatar_file none = search (steps) depth 16
  Stays-handle_avatar_file (some file) =
      search (steps, Stays-show_toast, Stays-avatar_loaded, Stays-call (Http.read_data_url file))
        depth 16

  pub Stays-save_profile :
      (trim : String → String) (token : String) (shown : SettingsState)
      → Stays (Allowed user confirmed) Free (Settings.save_profile trim token shown)
  unfolding Settings.save_profile
  Stays-save_profile trim token shown = search (steps, Stays-show_toast) depth 16

  pub Stays-request_destroy :
      (trim : String → String) (token : String) (shown : SettingsState)
      → Stays (Allowed user confirmed) Free (Settings.request_destroy trim token shown confirmed)
  unfolding Settings.request_destroy
  Stays-request_destroy trim token shown =
      search
        (
          steps,
          yes,
          Stays-show_toast,
          Stays-call (Http.request_destroy (trim shown.destroy_reason) token),
        )
        depth 16

  pub Stays-resend_at_settings :
      (user_id : String)
      → Stays (Allowed user confirmed) Free (Settings.resend_verification user_id)
  unfolding Settings.resend_verification
  Stays-resend_at_settings user_id =
      search (steps, Stays-set_settings, Stays-on_resend_verification) depth 16

  pub Stays-set_alias :
      (alias : String) → Stays (Allowed user confirmed) Free (Settings.set_alias alias)
  unfolding Settings.set_alias
  Stays-set_alias alias = search (steps, Stays-set_settings) depth 16

  pub Stays-set_destroy_reason :
      (reason : String) → Stays (Allowed user confirmed) Free (Settings.set_destroy_reason reason)
  unfolding Settings.set_destroy_reason
  Stays-set_destroy_reason reason = search (steps, Stays-set_settings) depth 16

  pub Stays-remove_avatar : Stays (Allowed user confirmed) Free (Settings.remove_avatar)
  unfolding Settings.remove_avatar
  Stays-remove_avatar = search (steps, Stays-set_settings) depth 16
