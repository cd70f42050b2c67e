-- ===== src/AdminWeb/Views/Reads.antt =====
-- DashboardView, StorageConfigView, CDNConfigView, InviteRecordsView, SecurityView and AuditLogView:
-- the views that only read.
use infinite_image_hosting.Prelude.{ℕ, String, if◌then◌else◌, truthy, Option, none, some, [], map}
use infinite_image_hosting.Async.Program.{message_or}
use infinite_image_hosting.AdminWeb.Types.{AdminOverview}
use infinite_image_hosting.AdminWeb.Calls
use infinite_image_hosting.AdminWeb.Text.{TextOps}
use infinite_image_hosting.AdminWeb.Page.{
  detach, ◌>>=◌, ◌>>◌, caught, AdminPage, Handler, set_views,
}
use infinite_image_hosting.AdminWeb.Session.{admin_fetch}
use infinite_image_hosting.AdminWeb.Replies.{StorageConfig, CdnConfig}
use infinite_image_hosting.AdminWeb.Rows.{record_row, event_row, log_row}
use infinite_image_hosting.AdminWeb.Cells.{Fetched, RecordsState, SecurityState, AuditState}

abbrev set_dashboard :
    (mount : ℕ) → (Fetched AdminOverview → Fetched AdminOverview) → Handler (Unit {0})
set_dashboard mount f = set_views mount (λ v. record v { dashboard = f v.dashboard })

abbrev set_storage :
    (mount : ℕ) → (Fetched StorageConfig → Fetched StorageConfig) → Handler (Unit {0})
set_storage mount f = set_views mount (λ v. record v { storage = f v.storage })

abbrev set_cdn : (mount : ℕ) → (Fetched CdnConfig → Fetched CdnConfig) → Handler (Unit {0})
set_cdn mount f = set_views mount (λ v. record v { cdn = f v.cdn })

abbrev set_records : (mount : ℕ) → (RecordsState → RecordsState) → Handler (Unit {0})
set_records mount f = set_views mount (λ v. record v { records = f v.records })

abbrev set_security : (mount : ℕ) → (SecurityState → SecurityState) → Handler (Unit {0})
set_security mount f = set_views mount (λ v. record v { security = f v.security })

abbrev set_audit : (mount : ℕ) → (AuditState → AuditState) → Handler (Unit {0})
set_audit mount f = set_views mount (λ v. record v { audit = f v.audit })

unfoldable pub load_overview : (seen : AdminPage) → Handler (Unit {0})
unfolding set_views admin_fetch
load_overview seen =
    caught
      (do
        value ← admin_fetch Calls.get_overview
        set_dashboard seen.view_run (λ c. record { config = some value; notice = "" }))
      (λ x.
        set_dashboard seen.view_run
          (λ c. record { config = none; notice = message_or "总览读取失败，请检查 API 服务。" x }))

unfoldable pub load_storage : (seen : AdminPage) → Handler (Unit {0})
unfolding set_views admin_fetch
load_storage seen =
    caught
      (do
        value ← admin_fetch Calls.get_storage_config
        set_storage seen.view_run (λ c. record { config = some value; notice = "" }))
      (λ x.
        set_storage seen.view_run
          (λ c. record { config = none; notice = message_or "对象存储配置读取失败，请检查 API 服务。" x }))

unfoldable pub load_cdn : (seen : AdminPage) → Handler (Unit {0})
unfolding set_views admin_fetch
load_cdn seen =
    caught
      (do
        value ← admin_fetch Calls.get_cdn_config
        set_cdn seen.view_run (λ c. record { config = some value; notice = "" }))
      (λ x.
        set_cdn seen.view_run
          (λ c. record { config = none; notice = message_or "CDN 配置读取失败，请检查 API 服务。" x }))

unfoldable pub load_records : (seen : AdminPage) → Handler (Unit {0})
unfolding set_views admin_fetch record_row
load_records seen =
    caught
      (do
        redemptions ← admin_fetch Calls.list_invites
        set_records seen.view_run
            (λ c. record { notice = ""; records = map record_row redemptions }))
      (λ x.
        set_records seen.view_run
          (λ c. record { records = []; notice = message_or "邀请兑换记录读取失败，请检查 API 服务。" x }))

-- SecurityView's effect makes both calls.
abbrev load_events : (mount : ℕ) → Handler (Unit {0})
load_events mount =
    caught
      (do
        rows ← admin_fetch Calls.list_security_events
        set_security mount (λ c. record c { notice = ""; events = map event_row rows }))
      (λ x.
        set_security mount
          (λ c. record c { events = []; notice = message_or "风控事件读取失败，请检查 API 服务。" x }))

abbrev load_limits : (mount : ℕ) → Handler (Unit {0})
load_limits mount =
    caught
      (do
        value ← admin_fetch Calls.get_system_config
        set_security mount (λ c. record c { system_config = some value }))
      (λ x.
        set_security mount
          (λ c. record c { system_config = none; notice = message_or "系统限流配置读取失败，请检查 API 服务。" x }))

unfoldable pub load_security : (seen : AdminPage) → Handler (Unit {0})
unfolding set_views admin_fetch event_row
load_security seen = do detach (load_events seen.view_run); load_limits seen.view_run

module _ (ops : TextOps) where
  -- `if (text.trim()) params.set(key, text.trim())`
  abbrev pub trimmed_param : String → Option String
  trimmed_param text = if truthy (ops.trim text) then some (ops.trim text) else none

  unfoldable pub load_logs : (seen : AdminPage) → Handler (Unit {0})
  unfolding set_views admin_fetch log_row
  load_logs seen =
      let cells = seen.views.audit in
      caught
        (do
          payload ← admin_fetch (
              Calls.list_audit_logs (trimmed_param cells.keyword)
                (if truthy cells.action_filter then some cells.action_filter else none))
          set_audit seen.view_run (λ c. record c {
            notice = "";
            total = payload.total;
            logs = map log_row payload.items;
          }))
        (λ x.
          set_audit seen.view_run
            (λ c. record c { logs = []; total = 0; notice = message_or "审计日志读取失败，请检查 API 服务。" x }))

-- The inputs of AuditLogView.
unfoldable pub set_audit_keyword : (seen : AdminPage) → String → Handler (Unit {0})
unfolding set_views
set_audit_keyword seen text = set_audit seen.view_run (λ c. record c { keyword = text })

unfoldable pub set_action_filter : (seen : AdminPage) → String → Handler (Unit {0})
unfolding set_views
set_action_filter seen text = set_audit seen.view_run (λ c. record c { action_filter = text })
