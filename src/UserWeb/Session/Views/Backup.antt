-- ===== src/UserWeb/Session/Views/Backup.antt =====
-- The handlers of BackupView and the tokens of the session.
use infinite_image_hosting.Prelude.{String, Option, none, some}
use infinite_image_hosting.Async.Rules.{Holds}
use infinite_image_hosting.UserWeb.Rules.{Holds-call}
use infinite_image_hosting.UserWeb.Types.{File}
use infinite_image_hosting.UserWeb.Http
use infinite_image_hosting.UserWeb.Views.Backup
use infinite_image_hosting.UserWeb.Session.InSync.{InSync, sync_steps}

pub Holds-export_backup : (token : String) → Holds InSync (Backup.export_backup token)
unfolding Backup.export_backup
Holds-export_backup token = search (sync_steps, Holds-call (Http.export_backup token)) depth 14

pub Holds-import_backup :
    (token : String) (file : Option File) → Holds InSync (Backup.import_backup token file)
unfolding Backup.import_backup
Holds-import_backup token none = search sync_steps
Holds-import_backup token (some file) =
    search (sync_steps, Holds-call (Http.import_backup file token)) depth 14
