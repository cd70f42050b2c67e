-- ===== src/UserWeb/Requests/Starts.antt =====
-- What the controls of the console start, as programs that send allowed requests only.
use infinite_image_hosting.Prelude.{String, Bool, Option, List}
use infinite_image_hosting.Async.Program.{Prog, run}
use infinite_image_hosting.Async.Within.{Stays, Stays-run}
use infinite_image_hosting.UserWeb.Types.{User, AppView, ImageItem, BillingCycle, File}
use infinite_image_hosting.UserWeb.Mapping.{Env}
use infinite_image_hosting.UserWeb.Page.{Page, Handler, SettingsState}
use infinite_image_hosting.UserWeb.App.Account
use infinite_image_hosting.UserWeb.App.Navigation
use infinite_image_hosting.UserWeb.Views.Upload
use infinite_image_hosting.UserWeb.Views.Gallery
use infinite_image_hosting.UserWeb.Views.Pricing
use infinite_image_hosting.UserWeb.Views.ApiKeys
use infinite_image_hosting.UserWeb.Views.Backup
use infinite_image_hosting.UserWeb.Views.Settings
use infinite_image_hosting.UserWeb.Views.Gallery.{LinkFormat}
use infinite_image_hosting.UserWeb.Requests.{Allowed, Free, Sends}
use infinite_image_hosting.UserWeb.Requests.App
use infinite_image_hosting.UserWeb.Requests.Views
use infinite_image_hosting.UserWeb.Requests.Panels

module _ (user : User) (confirmed : Bool) where
  pub Sends-nothing : Sends user confirmed Prog.stop
  Sends-nothing = record { within = tt }

  sends :
      {m : Handler (Unit {0})}
      → Stays (Allowed user confirmed) Free m
      → Sends user confirmed (run m)
  sends h = record { within = Stays-run h }

  pub Sends-start_ifpay_oauth : Sends user confirmed (run Account.start_ifpay_oauth)
  Sends-start_ifpay_oauth = sends (App.Stays-start_ifpay_oauth user confirmed)

  pub Sends-handle_logout : Sends user confirmed (run Account.handle_logout)
  Sends-handle_logout = sends (App.Stays-handle_logout user confirmed)

  pub Sends-navigate :
      (seen : Page) (view : AppView) → Sends user confirmed (run (Navigation.navigate seen view))
  Sends-navigate seen view = sends (App.Stays-navigate user confirmed seen view)

  pub Sends-close_toast : Sends user confirmed (run Navigation.close_toast)
  Sends-close_toast = sends (App.Stays-close_toast user confirmed)

  pub Sends-upload :
      (env : Env) (seen : Page) (file : Option File)
      → Sends user confirmed (run (Upload.upload env seen file))
  Sends-upload env seen file = sends (Views.Stays-upload user confirmed env seen file)

  pub Sends-drop_files :
      (env : Env) (seen : Page) (files : List File)
      → Sends user confirmed (run (Upload.drop_files env seen files))
  Sends-drop_files env seen files = sends (Views.Stays-drop_files user confirmed env seen files)

  pub Sends-drag_over : Sends user confirmed (run Upload.drag_over)
  Sends-drag_over = sends (Views.Stays-drag_over user confirmed)

  pub Sends-drag_leave : Sends user confirmed (run Upload.drag_leave)
  Sends-drag_leave = sends (Views.Stays-drag_leave user confirmed)

  pub Sends-resend_at_upload :
      (user_id : String) → Sends user confirmed (run (Upload.resend_verification user_id))
  Sends-resend_at_upload user_id = sends (Views.Stays-resend_at_upload user confirmed user_id)

  pub Sends-cycle_privacy_filter : Sends user confirmed (run Gallery.cycle_privacy_filter)
  Sends-cycle_privacy_filter = sends (Views.Stays-cycle_privacy_filter user confirmed)

  pub Sends-set_query : (query : String) → Sends user confirmed (run (Gallery.set_query query))
  Sends-set_query query = sends (Views.Stays-set_query user confirmed query)

  pub Sends-select_image : (img : ImageItem) → Sends user confirmed (run (Gallery.select_image img))
  Sends-select_image img = sends (Views.Stays-select_image user confirmed img)

  pub Sends-deselect_image : Sends user confirmed (run Gallery.deselect_image)
  Sends-deselect_image = sends (Views.Stays-deselect_image user confirmed)

  pub Sends-copy_link :
      (link : String) (type : LinkFormat) → Sends user confirmed (run (Gallery.copy_link link type))
  Sends-copy_link link type = sends (Views.Stays-copy_link user confirmed link type)

  pub Sends-delete_image :
      (seen : Page) (public_id : String)
      → Sends user confirmed (run (Gallery.delete_image seen confirmed public_id))
  Sends-delete_image seen public_id = sends (Views.Stays-delete_image user confirmed seen public_id)

  pub Sends-toggle_privacy :
      (env : Env) (seen : Page) (img : ImageItem)
      → Sends user confirmed (run (Gallery.toggle_privacy env seen img))
  Sends-toggle_privacy env seen img = sends (Views.Stays-toggle_privacy user confirmed env seen img)

  pub Sends-sign_image :
      (seen : Page) (public_id : String)
      → Sends user confirmed (run (Gallery.sign_image seen public_id))
  Sends-sign_image seen public_id = sends (Views.Stays-sign_image user confirmed seen public_id)

  pub Sends-refresh_orders :
      (token : String) → Sends user confirmed (run (Pricing.refresh_orders token))
  Sends-refresh_orders token = sends (Panels.Stays-refresh_orders user confirmed token)

  pub Sends-checkout :
      (seen : Page) (plan_slug : String) (cycle : BillingCycle)
      → Sends user confirmed (run (Pricing.checkout seen plan_slug cycle))
  Sends-checkout seen plan_slug cycle =
      sends (Panels.Stays-checkout user confirmed seen plan_slug cycle)

  pub Sends-create_key :
      (token : String) → Sends user confirmed (run (ApiKeys.create_key user token))
  Sends-create_key token = sends (Panels.Stays-create_key user confirmed token)

  pub Sends-revoke_key :
      (token : String) (key_id : String)
      → Sends user confirmed (run (ApiKeys.revoke_key token key_id))
  Sends-revoke_key token key_id = sends (Panels.Stays-revoke_key user confirmed token key_id)

  pub Sends-resend_at_api :
      (user_id : String) → Sends user confirmed (run (ApiKeys.resend_verification user_id))
  Sends-resend_at_api user_id = sends (Panels.Stays-resend_at_api user confirmed user_id)

  pub Sends-export_backup :
      (token : String) → Sends user confirmed (run (Backup.export_backup token))
  Sends-export_backup token = sends (Panels.Stays-export_backup user confirmed token)

  pub Sends-import_backup :
      (token : String) (file : Option File)
      → Sends user confirmed (run (Backup.import_backup token file))
  Sends-import_backup token file = sends (Panels.Stays-import_backup user confirmed token file)

  pub Sends-handle_avatar_file :
      (file : Option File) → Sends user confirmed (run (Settings.handle_avatar_file file))
  Sends-handle_avatar_file file = sends (Panels.Stays-handle_avatar_file user confirmed file)

  pub Sends-save_profile :
      (trim : String → String) (token : String) (shown : SettingsState)
      → Sends user confirmed (run (Settings.save_profile trim token shown))
  Sends-save_profile trim token shown =
      sends (Panels.Stays-save_profile user confirmed trim token shown)

  pub Sends-request_destroy :
      (trim : String → String) (token : String) (shown : SettingsState)
      → Sends user confirmed (run (Settings.request_destroy trim token shown confirmed))
  Sends-request_destroy trim token shown =
      sends (Panels.Stays-request_destroy user confirmed trim token shown)

  pub Sends-resend_at_settings :
      (user_id : String) → Sends user confirmed (run (Settings.resend_verification user_id))
  Sends-resend_at_settings user_id = sends (Panels.Stays-resend_at_settings user confirmed user_id)

  pub Sends-set_alias : (alias : String) → Sends user confirmed (run (Settings.set_alias alias))
  Sends-set_alias alias = sends (Panels.Stays-set_alias user confirmed alias)

  pub Sends-set_destroy_reason :
      (reason : String) → Sends user confirmed (run (Settings.set_destroy_reason reason))
  Sends-set_destroy_reason reason = sends (Panels.Stays-set_destroy_reason user confirmed reason)

  pub Sends-remove_avatar : Sends user confirmed (run Settings.remove_avatar)
  Sends-remove_avatar = sends (Panels.Stays-remove_avatar user confirmed)

pub ruleset starts = (
  Sends-nothing, Sends-start_ifpay_oauth, Sends-handle_logout, Sends-navigate, Sends-close_toast,
  Sends-upload, Sends-drop_files, Sends-drag_over, Sends-drag_leave, Sends-resend_at_upload,
  Sends-cycle_privacy_filter, Sends-set_query, Sends-select_image, Sends-deselect_image,
  Sends-copy_link, Sends-delete_image, Sends-toggle_privacy, Sends-sign_image, Sends-refresh_orders,
  Sends-checkout, Sends-create_key, Sends-revoke_key, Sends-resend_at_api, Sends-export_backup,
  Sends-import_backup, Sends-handle_avatar_file, Sends-save_profile, Sends-request_destroy,
  Sends-resend_at_settings, Sends-set_alias, Sends-set_destroy_reason, Sends-remove_avatar,
)
