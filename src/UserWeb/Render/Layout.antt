-- ===== src/UserWeb/Render/Layout.antt =====
-- The console's frame, AppLayout with its MENU, and the toast.
use infinite_image_hosting.Prelude.{
  ℕ, String, str_eq, ◌<>◌, ◌==◌, Bool, true, false, if◌then◌else◌, Option, none, some, List, [],
  ◌∷◌, ◌++◌, find, get_or, if_some,
}
use infinite_image_hosting.Async.Program.{run}
use infinite_image_hosting.UserWeb.Types.{
  User, AppView, dashboard, upload, gallery, pricing, api, security, backup, settings, PricingPlan,
  ToastState,
}
use infinite_image_hosting.UserWeb.Format.{format_bytes, format_quota_bytes, meter_percent, show}
use infinite_image_hosting.UserWeb.Mapping.{Env, slice_to}
use infinite_image_hosting.UserWeb.Page.{Page}
use infinite_image_hosting.UserWeb.App.Account.{handle_logout}
use infinite_image_hosting.UserWeb.App.Navigation.{navigate, close_toast}
use infinite_image_hosting.UserWeb.Html.{
  Element, label, bar, divider, button, entry, each, toast_icon,
}

pub data MenuItem : Type 0 where
  item : (id : AppView) → (caption : String) → MenuItem
  divider_item : MenuItem

unfoldable pub menu : List MenuItem
menu =
    item dashboard "实例监控"
    ∷ item upload "对象上传"
    ∷ item gallery "资源管理"
    ∷ divider_item
    ∷ item pricing "资源包管理"
    ∷ item api "API 密钥"
    ∷ item security "安全策略"
    ∷ item backup "数据迁移"
    ∷ item settings "实例配置"
    ∷ []

-- `a === b` on views
abbrev view_code : AppView → ℕ
view_code dashboard = 0
view_code upload = 1
view_code gallery = 2
view_code pricing = 3
view_code api = 4
view_code security = 5
view_code backup = 6
view_code settings = 7

unfoldable pub same_view : AppView → AppView → Bool
same_view a b = view_code a == view_code b

-- The caption of the first entry of the menu that is the view.
unfoldable pub caption_of : AppView → List MenuItem → Option String
unfolding same_view
caption_of v [] = none
caption_of v (divider_item ∷ items) = caption_of v items
caption_of v (item id caption ∷ items) = if same_view id v then some caption else caption_of v items

-- `plans.find((plan) => plan.id === user.plan)`
unfoldable pub current_plan : User → List PricingPlan → Option PricingPlan
current_plan user plans = find (λ plan. str_eq plan.id user.plan) plans

-- `currentPlan?.storageBytes`; 0 is no limit too where it is tested for truth
abbrev pub storage_limit : Option PricingPlan → Option ℕ
storage_limit plan = if_some plan none (λ p. p.storage_bytes)

abbrev limited : Option ℕ → Bool
limited limit = if get_or limit 0 == 0 then false else true

module _ (env : Env) where
  unfoldable pub menu_entry : (seen : Page) → AppView → MenuItem → List Element
  menu_entry seen current divider_item = divider ∷ []
  menu_entry seen current (item id caption) =
      entry caption (same_view current id) (run (navigate seen id)) ∷ []

  -- `children` is the view that stands in the frame
  unfoldable pub app_layout : (seen : Page) → User → AppView → List Element → List Element
  unfolding menu caption_of current_plan menu_entry
  app_layout seen user view children =
      let limit = storage_limit (current_plan user seen.plans) in
      let used = get_or seen.usage.storage_bytes 0 in
      let percent = meter_percent env.floats used limit in
      (label "悦享控制台"
        ∷ label ("实例: " <> user.plan)
        ∷ label (if limited limit then show percent <> "%" else "∞")
        ∷ bar (if limited limit then percent else 100)
        ∷ label (format_bytes used <> (" / " <> format_quota_bytes limit))
        ∷ [])
      ++ (each (menu_entry seen view) menu
          ++ ((button "退出控制台" false (run handle_logout)
                ∷ label (get_or (caption_of view menu) "Console")
                ∷ label ("账号: " <> user.email)
                ∷ label (slice_to 1 user.name)
                ∷ [])
              ++ (children
                  ++ (button "监控" false (run (navigate seen dashboard))
                      ∷ button "上传" false (run (navigate seen upload))
                      ∷ button "资源" false (run (navigate seen gallery))
                      ∷ button "配置" false (run (navigate seen settings))
                      ∷ []))))

-- `toast && <Toast … />`
unfoldable pub toast_view : Option ToastState → List Element
unfolding toast_icon
toast_view none = []
toast_view (some t) = toast_icon t.type ++ (label t.msg ∷ button "X" false (run close_toast) ∷ [])
