-- ===== src/UserWeb/Session/Views/Settings.antt =====
-- The handlers of SettingsView and the tokens of the session.
use infinite_image_hosting.Prelude.{String, Bool, Option, none, some}
use infinite_image_hosting.Async.Rules.{Holds}
use infinite_image_hosting.UserWeb.Rules.{Holds-call}
use infinite_image_hosting.UserWeb.Types.{User, File}
use infinite_image_hosting.UserWeb.Http
use infinite_image_hosting.UserWeb.Page.{SettingsState}
use infinite_image_hosting.UserWeb.Views.Settings
use infinite_image_hosting.UserWeb.Session.InSync.{InSync, sync_steps, Holds-frame}
use infinite_image_hosting.UserWeb.Session.Views.Upload.{Holds-on_resend_verification}

pub Holds-set_settings :
    (f : SettingsState → SettingsState) → Holds InSync (Settings.set_settings f)
unfolding Settings.set_settings
Holds-set_settings f = search sync_steps

pub Holds-sync_profile : (user : User) → Holds InSync (Settings.sync_profile user)
unfolding Settings.sync_profile
Holds-sync_profile user = search (sync_steps, Holds-set_settings) depth 14

pub Holds-avatar_loaded : (next_url : String) → Holds InSync (Settings.avatar_loaded next_url)
unfolding Settings.avatar_loaded
Holds-avatar_loaded next_url = search (sync_steps, Holds-set_settings) depth 14

pub Holds-save_profile :
    (trim : String → String) (token : String) (shown : SettingsState)
    → Holds InSync (Settings.save_profile trim token shown)
unfolding Settings.save_profile
Holds-save_profile trim token shown =
    search
      (
        sync_steps,
        Holds-frame,
        Holds-call (Http.patch_profile (trim shown.alias) shown.avatar_url token),
      )
      depth 14

pub Holds-request_destroy :
    (trim : String → String) (token : String) (shown : SettingsState) (confirmed : Bool)
    → Holds InSync (Settings.request_destroy trim token shown confirmed)
unfolding Settings.request_destroy
Holds-request_destroy trim token shown confirmed =
    search (sync_steps, Holds-call (Http.request_destroy (trim shown.destroy_reason) token)) depth
      14

pub Holds-resend_verification :
    (user_id : String) → Holds InSync (Settings.resend_verification user_id)
unfolding Settings.resend_verification
Holds-resend_verification user_id =
    search (sync_steps, Holds-set_settings, Holds-on_resend_verification) depth 14

pub Holds-handle_avatar_file :
    (file : Option File) → Holds InSync (Settings.handle_avatar_file file)
unfolding Settings.handle_avatar_file
Holds-handle_avatar_file none = search sync_steps
Holds-handle_avatar_file (some file) =
    search (sync_steps, Holds-avatar_loaded, Holds-call (Http.read_data_url file)) depth 14

pub Holds-set_alias : (alias : String) → Holds InSync (Settings.set_alias alias)
unfolding Settings.set_alias
Holds-set_alias alias = Holds-set_settings _

pub Holds-set_destroy_reason : (reason : String) → Holds InSync (Settings.set_destroy_reason reason)
unfolding Settings.set_destroy_reason
Holds-set_destroy_reason reason = Holds-set_settings _

pub Holds-remove_avatar : Holds InSync Settings.remove_avatar
unfolding Settings.remove_avatar
Holds-remove_avatar = Holds-set_settings _
