-- ===== src/AdminWeb/Audit/System.antt =====
-- BackupView, SystemSettingsView, QueueStatusView, OpenPlatformView and the console's frame.
use infinite_image_hosting.Prelude.{String, Option, arith, Bool}
use infinite_image_hosting.Async.Within.{Stays}
use infinite_image_hosting.UserWeb.Types.{File}
use infinite_image_hosting.AdminWeb.Types.{RouteId}
use infinite_image_hosting.AdminWeb.Replies.{IfpayForm}
use infinite_image_hosting.AdminWeb.Text.{TextOps}
use infinite_image_hosting.AdminWeb.Page.{AdminPage, ◌>>◌}
use infinite_image_hosting.AdminWeb.Views.Backup
use infinite_image_hosting.AdminWeb.Views.Settings
use infinite_image_hosting.AdminWeb.Views.Queue
use infinite_image_hosting.AdminWeb.Views.Platform
use infinite_image_hosting.AdminWeb.Session
use infinite_image_hosting.AdminWeb.Audit.{Audited, Ends}
use infinite_image_hosting.AdminWeb.Audit.Rules.{console_rules, Stays-write}

pub Stays-export_backup : (seen : AdminPage) → Stays Audited Ends (Backup.export_backup seen)
unfolding Backup.export_backup
Stays-export_backup seen = search (console_rules) depth 24

pub Stays-validate_backup :
    (seen : AdminPage) (file : Option File) → Stays Audited Ends (Backup.validate_backup seen file)
unfolding Backup.validate_backup
Stays-validate_backup seen file = search (console_rules) depth 24

pub Stays-load_settings : (seen : AdminPage) → Stays Audited Ends (Settings.load_settings seen)
unfolding Settings.load_settings
Stays-load_settings seen = search (console_rules) depth 24

pub Stays-purge_expired : (seen : AdminPage) → Stays Audited Ends (Settings.purge_expired seen)
unfolding Settings.purge_expired
Stays-purge_expired seen = search (console_rules) depth 24

pub Stays-open_purge : (seen : AdminPage) → Stays Audited Ends (Settings.open_purge seen)
unfolding Settings.open_purge
Stays-open_purge seen = search (console_rules) depth 24

pub Stays-close_purge : (seen : AdminPage) → Stays Audited Ends (Settings.close_purge seen)
unfolding Settings.close_purge
Stays-close_purge seen = search (console_rules) depth 24

pub Stays-set_purge_confirm :
    (seen : AdminPage) (text : String) → Stays Audited Ends (Settings.set_purge_confirm seen text)
unfolding Settings.set_purge_confirm
Stays-set_purge_confirm seen text = search (console_rules) depth 24

pub Stays-load_status : (seen : AdminPage) → Stays Audited Ends (Queue.load_status seen)
unfolding Queue.load_status
Stays-load_status seen = search (console_rules) depth 24

pub Stays-requeue_dead_letter :
    (seen : AdminPage) (id : String) → Stays Audited Ends (Queue.requeue_dead_letter seen id)
unfolding Queue.requeue_dead_letter
Stays-requeue_dead_letter seen id = search (console_rules, Stays-load_status) depth 24

pub Stays-load_config : (seen : AdminPage) → Stays Audited Ends (Platform.load_config seen)
unfolding Platform.load_config
Stays-load_config seen = search (console_rules, Stays-write, arith) depth 24

pub Stays-set_field :
    (seen : AdminPage) (f : IfpayForm → IfpayForm) → Stays Audited Ends (Platform.set_field seen f)
unfolding Platform.set_field
Stays-set_field seen f = search (console_rules) depth 24

pub Stays-save_integration :
    (ops : TextOps) (seen : AdminPage) → Stays Audited Ends (Platform.save_integration ops seen)
unfolding Platform.save_integration
Stays-save_integration ops seen = search (console_rules) depth 24

pub Stays-api_status_effect :
    (seen : AdminPage) → Stays Audited Ends (Session.api_status_effect seen)
unfolding Session.api_status_effect
Stays-api_status_effect seen = search (console_rules) depth 24

pub Stays-open_route :
    (seen : AdminPage) (route : RouteId) → Stays Audited Ends (Session.open_route seen route)
unfolding Session.open_route ◌>>◌
Stays-open_route seen route = search (console_rules, Stays-write, arith) depth 24

pub Stays-set_mobile_menu :
    (seen : AdminPage) (shown : Bool) → Stays Audited Ends (Session.set_mobile_menu seen shown)
unfolding Session.set_mobile_menu
Stays-set_mobile_menu seen shown = search (console_rules) depth 24
