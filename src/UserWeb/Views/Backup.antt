-- ===== src/UserWeb/Views/Backup.antt =====
-- BackupView: the download of a backup and its import.
use infinite_image_hosting.Prelude.{String, ◌<>◌, Option, none, some}
use infinite_image_hosting.Async.Program.{pure, fetch, ◌>>=◌}
use infinite_image_hosting.UserWeb.Http
use infinite_image_hosting.UserWeb.Types.{File, success}
use infinite_image_hosting.UserWeb.Page.{Handler, show_toast, show_error}
use infinite_image_hosting.UserWeb.Format.{show}

-- The download of the blob is left to the browser.
unfoldable pub export_backup : (token : String) → Handler (Unit {0})
export_backup token =
    show_error "备份导出失败" (do _ ← fetch (Http.export_backup token); show_toast "备份已生成" success)

unfoldable pub import_backup : (token : String) → Option File → Handler (Unit {0})
import_backup token none = pure tt
import_backup token (some file) = show_error "备份导入失败" (do
  restored ← fetch (Http.import_backup file token)
  show_toast ("导入完成：" <> (restored.status <> ("，恢复 " <> (show restored.restored <> " 个对象"))))
      success)
