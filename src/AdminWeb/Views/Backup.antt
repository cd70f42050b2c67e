-- ===== src/AdminWeb/Views/Backup.antt =====
-- BackupView: the full export, and the check of an archive. The browser saves the archive; the page
-- keeps nothing of it.
use infinite_image_hosting.Prelude.{
  ℕ, String, ◌<>◌, true, false, if◌then◌else◌, Option, none, some, if_some,
}
use infinite_image_hosting.Async.Program.{message_or, pure}
use infinite_image_hosting.AdminWeb.Calls
use infinite_image_hosting.AdminWeb.Page.{
  ◌>>=◌, ◌>>◌, caught, ensured, AdminPage, Handler, set_views, good, bad,
}
use infinite_image_hosting.AdminWeb.Session.{admin_fetch}
use infinite_image_hosting.UserWeb.Types.{File}
use infinite_image_hosting.UserWeb.Format.{show}
use infinite_image_hosting.AdminWeb.Cells.{BackupState}

abbrev set_backup : (mount : ℕ) → (BackupState → BackupState) → Handler (Unit {0})
set_backup mount f = set_views mount (λ v. record v { backup = f v.backup })

unfoldable pub export_backup : (seen : AdminPage) → Handler (Unit {0})
unfolding set_views admin_fetch
export_backup seen = if seen.views.backup.exporting then pure tt else (do
  set_backup seen.view_run (λ c. record c { exporting = true })
  ensured
      (caught
        (do
          blob ← admin_fetch Calls.export_backup
          set_backup seen.view_run
              (λ c. record c { notice = good "全量备份包已生成，包含数据库快照、对象文件、manifest 与 checksum。" }))
        (λ x.
          set_backup seen.view_run (λ c. record c { notice = bad (message_or "导出失败，请检查后台服务。" x) })))
      (set_backup seen.view_run (λ c. record c { exporting = false })))

-- A number in a template: a missing field is printed as `undefined`.
abbrev pub printed : Option ℕ → String
unfolding show
printed value = if_some value "undefined" show

unfoldable pub validate_backup : (seen : AdminPage) → Option File → Handler (Unit {0})
unfolding set_views admin_fetch show
validate_backup seen file = if_some file (pure tt) (λ f.
    if seen.views.backup.validating then pure tt else (do
      set_backup seen.view_run (λ c. record c { file_name = f.name; validating = true })
      ensured
          (caught
            (do
              result ← admin_fetch (Calls.validate_backup f)
              set_backup seen.view_run (λ c. record c {
                validation = some result;
                notice = good (
                    "备份包预检通过："
                    <> (printed result.file_count
                        <> (" 个文件，" <> (printed result.object_count <> " 个对象。"))));
              }))
            (λ x.
              set_backup seen.view_run
                (λ c. record c { validation = none; notice = bad (message_or "预检失败，请检查备份包。" x) })))
          (set_backup seen.view_run (λ c. record c { validating = false }))))
