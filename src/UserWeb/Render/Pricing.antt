-- ===== src/UserWeb/Render/Pricing.antt =====
-- What PricingView shows.
use infinite_image_hosting.Prelude.{
  ◌<>◌, ◌/◌, ◌%◌, ltb, ℕ, String, str_eq, false, not, ◌||◌, if◌then◌else◌, ◌or◌, truthy, List, [],
  ◌∷◌, ◌++◌, length, take,
}
use infinite_image_hosting.Async.Program.{run}
use infinite_image_hosting.UserWeb.Types.{
  User, PricingPlan, ApiOrder, monthly, yearly, primary, info,
}
use infinite_image_hosting.UserWeb.Format.{show}
use infinite_image_hosting.UserWeb.Page.{Page, PricingState}
use infinite_image_hosting.UserWeb.App.Account.{start_ifpay_oauth}
use infinite_image_hosting.UserWeb.Views.Pricing.{
  refresh_orders, checkout, checkout_key, order_status,
}
use infinite_image_hosting.UserWeb.Html.{Element, label, badge, button, shown_if, each}

-- `(cents / 100).toFixed(2)`
unfoldable pub show_cents : ℕ → String
unfolding show
show_cents cents = show (cents / 100) <> ("." <> (show (cents % 100 / 10) <> show (cents % 10)))

unfoldable pub plan_card : (seen : Page) → (current : String) → PricingPlan → List Element
plan_card seen current plan =
    let is_current = str_eq plan.id current in
    let by_month = str_eq seen.pricing.checking_out (checkout_key plan.id monthly) in
    let by_year = str_eq seen.pricing.checking_out (checkout_key plan.id yearly) in
    shown_if (str_eq plan.id "pro") (label "当前执行标准" ∷ [])
    ++ (label (plan.name <> " 包")
        ∷ label ("¥" <> show plan.price_mo)
        ∷ label "/ 月"
        ∷ label ("按年结算 ¥" <> (show plan.price_yr <> " (83折)"))
        ∷ label "对象存储容量"
        ∷ label plan.storage
        ∷ label "CDN 外网下行"
        ∷ label plan.traffic
        ∷ label "API & HTTP 请求"
        ∷ label plan.requests
        ∷ label "边缘处理额度"
        ∷ label plan.process
        ∷ button (if is_current then "当前套餐" else if by_month then "创建中" else "月付")
            (is_current || by_month) (run (checkout seen plan.id monthly))
        ∷ button (if by_year then "创建中" else "年付") (is_current || by_year)
            (run (checkout seen plan.id yearly))
        ∷ [])

unfoldable pub plan_cards : (seen : Page) → (current : String) → List PricingPlan → List Element
unfolding plan_card
plan_cards seen current [] = label "套餐配置暂不可用，请稍后刷新。" ∷ []
plan_cards seen current (p ∷ plans) = each (plan_card seen current) (p ∷ plans)

unfoldable pub order_row : ApiOrder → List Element
unfolding order_status show_cents
order_row order =
    label order.id
    ∷ label (
        order.plan_slug
        <> (" · " <> (order.billing_cycle <> (" · " <> (order.ifpay_payment_id or "pending")))))
    ∷ badge (order_status order.status).1 (order_status order.status).0
    ∷ label ("¥" <> show_cents order.amount_cent)
    ∷ []

unfoldable pub order_panel : (token : String) → PricingState → List Element
unfolding order_row
order_panel token p =
    let some_orders = ltb 0 (length p.orders) in
    (label "最近订单"
      ∷ badge (if some_orders then primary else info)
          (if some_orders then show (length p.orders) <> " 条" else "暂无订单")
      ∷ button "RefreshCw" p.orders_loading (run (refresh_orders token))
      ∷ [])
    ++ (each order_row (take 3 p.orders)
        ++ shown_if (not some_orders) (label "这里会显示你的 IF-Pay 订单、支付状态和最近一次续费记录。" ∷ []))

unfoldable pub pricing_view : (seen : Page) → User → List Element
unfolding plan_cards order_panel
pricing_view seen user =
    (label "生命周期策略通知："
      ∷ label
          "资源包到期后，关联 Bucket 将自动切入 30天只读保留状态（禁止 PUT 请求）。保留期内支持控制台登录及备份导出。逾期 30 天未续费，系统将执行不可逆的 `Destroy` 流程清空数据。"
      ∷ [])
    ++ (shown_if (not (truthy seen.ifpay_token)) (
          label "订购资源包前需要完成 IF-Pay 授权，以便创建支付订单和接收支付回调。"
          ∷ button "连接 IF-Pay" false (run start_ifpay_oauth)
          ∷ [])
        ++ (shown_if (truthy seen.plans_error) (label seen.plans_error ∷ [])
            ++ (plan_cards seen user.plan seen.plans ++ order_panel seen.token seen.pricing)))
