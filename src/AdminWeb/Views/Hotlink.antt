-- ===== src/AdminWeb/Views/Hotlink.antt =====
-- HotlinkConfigView: which sites may show the images.
use infinite_image_hosting.Prelude.{
  ℕ, String, Bool, true, false, if◌then◌else◌, truthy, none, some, List, map, filter,
}
use infinite_image_hosting.Async.Program.{message_or, pure}
use infinite_image_hosting.AdminWeb.Calls
use infinite_image_hosting.AdminWeb.Text.{TextOps, join, split_domains}
use infinite_image_hosting.AdminWeb.Page.{
  ◌>>=◌, ◌>>◌, caught, ensured, AdminPage, Handler, set_views, good, bad,
}
use infinite_image_hosting.AdminWeb.Session.{admin_fetch}
use infinite_image_hosting.AdminWeb.Replies.{HotlinkConfig, HotlinkPatch}
use infinite_image_hosting.AdminWeb.Cells.{HotlinkState}

abbrev set_hotlink : (mount : ℕ) → (HotlinkState → HotlinkState) → Handler (Unit {0})
set_hotlink mount f = set_views mount (λ v. record v { hotlink = f v.hotlink })

-- `setConfig(data); setAllowed(…); setBlocked(…); setAllowEmpty(…)`
unfoldable pub put_config : HotlinkConfig → HotlinkState → HotlinkState
unfolding join
put_config value c = record c {
  config = some value;
  allowed = join "\n" value.allowed_domains;
  blocked = join "\n" value.blocked_domains;
  allow_empty = value.allow_empty_referer;
}

unfoldable pub load_hotlink : (seen : AdminPage) → Handler (Unit {0})
unfolding set_views admin_fetch put_config
load_hotlink seen =
    caught (do value ← admin_fetch Calls.get_hotlink; set_hotlink seen.view_run (put_config value))
      (λ x.
        set_hotlink seen.view_run
          (λ c. record c { config = none; notice = bad (message_or "防盗链策略读取失败，请检查 API 服务。" x) }))

-- The inputs.
unfoldable pub set_allowed : (seen : AdminPage) → String → Handler (Unit {0})
unfolding set_views
set_allowed seen text = set_hotlink seen.view_run (λ c. record c { allowed = text })

unfoldable pub set_blocked : (seen : AdminPage) → String → Handler (Unit {0})
unfolding set_views
set_blocked seen text = set_hotlink seen.view_run (λ c. record c { blocked = text })

unfoldable pub set_allow_empty : (seen : AdminPage) → Bool → Handler (Unit {0})
unfolding set_views
set_allow_empty seen checked = set_hotlink seen.view_run (λ c. record c { allow_empty = checked })

module _ (ops : TextOps) where
  unfoldable pub parse_domains : String → List String
  unfolding split_domains
  parse_domains value = filter (λ (item : String). truthy item) (map ops.trim (split_domains value))

  unfoldable pub hotlink_patch : HotlinkState → HotlinkPatch
  unfolding parse_domains
  hotlink_patch cells = record {
    allowed_domains = parse_domains cells.allowed;
    blocked_domains = parse_domains cells.blocked;
    allow_empty_referer = cells.allow_empty;
  }

  unfoldable pub save_hotlink : (seen : AdminPage) → Handler (Unit {0})
  unfolding set_views admin_fetch put_config hotlink_patch
  save_hotlink seen =
      let cells = seen.views.hotlink in
      if cells.saving then pure tt else (do
        set_hotlink seen.view_run (λ c. record c { saving = true })
        ensured
            (caught
              (do
                value ← admin_fetch (Calls.patch_hotlink (hotlink_patch cells))
                set_hotlink seen.view_run (λ c. record (put_config value c) {
                  notice = good "防盗链策略已实时保存，图片分发入口会立即使用新规则。";
                }))
              (λ x.
                set_hotlink seen.view_run
                  (λ c. record c { notice = bad (message_or "保存失败，请检查后台服务。" x) })))
            (set_hotlink seen.view_run (λ c. record c { saving = false })))
