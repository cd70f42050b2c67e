-- ===== src/AdminWeb/Views/Settings.antt =====
-- SystemSettingsView: the configuration, and the removal of what is past its retention.
use infinite_image_hosting.Prelude.{
  ℕ, length, String, ◌<>◌, str_eq, true, false, not, ◌||◌, if◌then◌else◌, none, some,
}
use infinite_image_hosting.Async.Program.{message_or, pure}
use infinite_image_hosting.AdminWeb.Calls
use infinite_image_hosting.AdminWeb.Page.{
  ◌>>=◌, ◌>>◌, caught, ensured, AdminPage, Handler, set_views, good, bad,
}
use infinite_image_hosting.AdminWeb.Session.{admin_fetch}
use infinite_image_hosting.UserWeb.Format.{show}
use infinite_image_hosting.AdminWeb.Cells.{SettingsState}

abbrev set_settings : (mount : ℕ) → (SettingsState → SettingsState) → Handler (Unit {0})
set_settings mount f = set_views mount (λ v. record v { settings = f v.settings })

unfoldable pub load_settings : (seen : AdminPage) → Handler (Unit {0})
unfolding set_views admin_fetch
load_settings seen =
    caught
      (do
        value ← admin_fetch Calls.get_system_config
        set_settings seen.view_run (λ c. record c { notice = none; config = some value }))
      (λ x.
        set_settings seen.view_run
          (λ c. record c { config = none; notice = bad (message_or "系统配置读取失败，请检查 API 服务。" x) }))

unfoldable pub purge_expired : (seen : AdminPage) → Handler (Unit {0})
unfolding set_views admin_fetch show
purge_expired seen =
    if seen.views.settings.purging || not (str_eq seen.views.settings.purge_confirm "PURGE")
    then pure tt
    else (do
      set_settings seen.view_run (λ c. record c { purging = true })
      ensured
          (caught
            (do
              result ← admin_fetch Calls.purge_expired
              set_settings seen.view_run (λ c. record c {
                notice = good (
                    "超期资源清理完成："
                    <> (show (length result.purged_users)
                        <> (" 个用户，" <> (show result.deleted_objects <> " 个对象。"))));
                purge_open = false;
                purge_confirm = "";
              }))
            (λ x.
              set_settings seen.view_run
                (λ c. record c { notice = bad (message_or "超期资源清理失败，请检查后台服务。" x) })))
          (set_settings seen.view_run (λ c. record c { purging = false })))

unfoldable pub open_purge : (seen : AdminPage) → Handler (Unit {0})
unfolding set_views
open_purge seen = set_settings seen.view_run (λ c. record c { purge_open = true })

unfoldable pub close_purge : (seen : AdminPage) → Handler (Unit {0})
unfolding set_views
close_purge seen =
    if seen.views.settings.purging
    then pure tt
    else set_settings seen.view_run (λ c. record c { purge_open = false; purge_confirm = "" })

unfoldable pub set_purge_confirm : (seen : AdminPage) → String → Handler (Unit {0})
unfolding set_views
set_purge_confirm seen text = set_settings seen.view_run (λ c. record c { purge_confirm = text })
