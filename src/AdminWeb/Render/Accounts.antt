-- ===== src/AdminWeb/Render/Accounts.antt =====
-- What DashboardView, UserManageView and HiddenPlanView show.
use infinite_image_hosting.Prelude.{
  ℕ, ◌<>◌, str_eq, false, not, ◌||◌, if◌then◌else◌, truthy, Option, none, some, if_some, is_some,
  List, [], ◌∷◌, ◌++◌,
}
use infinite_image_hosting.Async.Program.{run}
use infinite_image_hosting.UserWeb.Format.{show}
use infinite_image_hosting.AdminWeb.Types.{primary, success, warning, danger, AdminOverview}
use infinite_image_hosting.AdminWeb.Text.{TextOps}
use infinite_image_hosting.AdminWeb.Format.{Numbers, format_bytes, show_cents}
use infinite_image_hosting.AdminWeb.Page.{AdminPage}
use infinite_image_hosting.AdminWeb.Html.{
  Element, label, tag, metric, button, text_input, fixed_input, choice, shown_if, two_tone_bar,
  text_notice, card, form_item, table, dialog, pairs,
}
use infinite_image_hosting.AdminWeb.Replies.{ban, unban}
use infinite_image_hosting.AdminWeb.Rows.{UserRow, Risk, low, medium, high}
use infinite_image_hosting.AdminWeb.Views.Users
use infinite_image_hosting.AdminWeb.Views.HiddenPlans

-- `overview?.field ?? 0`

abbrev count_of : (AdminOverview → ℕ) → Option AdminOverview → ℕ
count_of field overview = if_some overview 0 field

unfoldable pub dashboard_view : (seen : AdminPage) → List Element
unfolding card show show_cents format_bytes
dashboard_view seen =
    let overview = seen.views.dashboard.config in
    let count = λ (field : AdminOverview → ℕ). show (count_of field overview) in
    text_notice danger seen.views.dashboard.notice
    ++ ((metric "总用户数" (count (λ o. o.users)) (if is_some overview then "生产实时指标" else "等待 API 返回")
          ∷ metric "订单收入" ("¥ " <> show_cents (count_of (λ o. o.revenue_cent) overview)) (
              "已支付 "
              <> (count (λ o. o.paid_orders) <> (" / 待处理 " <> count (λ o. o.pending_orders))))
          ∷ metric "存储总占用" (if_some overview "0 B" (λ o. format_bytes (some o.storage_bytes)))
              ("对象 " <> (count (λ o. o.images) <> (" / 冻结 " <> count (λ o. o.frozen_images))))
          ∷ metric "风险拦截事件" (count (λ o. o.risk_events)) "WAF & 防盗链"
          ∷ [])
        ++ (card "资源消耗概览" [] (
              label "对象存储"
              ∷ label "累计分发"
              ∷ pairs (
                  (
                    "存储容量",
                    if_some overview (format_bytes none) (λ o. format_bytes (some o.storage_bytes)),
                  )
                  ∷ (
                    "分发流量",
                    if_some overview (format_bytes none)
                        (λ o. format_bytes (some o.bandwidth_bytes)),
                  )
                  ∷ ("活跃订阅", count (λ o. o.active_subscriptions))
                  ∷ []))
            ++ card "系统健康与安全态势" [] (
                pairs (
                  ("后端 API", if is_some overview then "已连接" else "检查中")
                  ∷ ("订单系统", count (λ o. o.orders) <> " 单")
                  ∷ ("删除对象", count (λ o. o.deleted_images) <> " 个")
                  ∷ ("恶意爬虫告警", count (λ o. o.risk_events) <> " 事件")
                  ∷ []))))

abbrev risk_tag : Risk → Element
risk_tag low = tag success "安全"
risk_tag medium = tag warning "关注"
risk_tag high = tag danger "高危"

unfoldable pub user_cells_shown : (seen : AdminPage) → UserRow → List Element
user_cells_shown seen row =
    let cells = seen.views.users in
    let busy = truthy cells.user_action_id in
    (label row.id
      ∷ label row.username
      ∷ label row.email
      ∷ tag (if str_eq row.plan "Infinite Max" then warning else primary) row.plan
      ∷ label row.storage_used
      ∷ risk_tag row.risk_level
      ∷ label (if str_eq row.status "active" then "正常" else "封禁")
      ∷ label row.created_at
      ∷ button "详情" false (run (Users.select_user seen (some row)))
      ∷ [])
    ++ ((if str_eq row.status "active"
          then button (if str_eq cells.user_action_id row.id then "处理中" else "封禁") busy
              (run (Users.set_user_status seen row.id ban))
            ∷ []
          else button (if str_eq cells.user_action_id row.id then "处理中" else "解封") busy
              (run (Users.set_user_status seen row.id unban))
            ∷ [])
        ++ shown_if (not (str_eq row.plan "未订阅"))
            (button "到期" (busy || cells.expiring) (run (Users.open_expiry seen row)) ∷ []))

-- The details of the selected user.
unfoldable pub user_details : UserRow → List Element
unfolding show
user_details user = pairs (
    ("用户 ID", user.id)
    ∷ ("邮箱", user.email)
    ∷ ("昵称", user.username)
    ∷ ("套餐", user.plan)
    ∷ ("状态", user.status)
    ∷ ("注册时间", user.created_at)
    ∷ ("存储用量", user.storage_used)
    ∷ ("分发流量", user.bandwidth_used)
    ∷ ("图片请求", show user.image_requests)
    ∷ ("API 调用", show user.api_calls)
    ∷ ("边缘处理", show user.process_events)
    ∷ [])

module _ (ops : TextOps) where
  unfoldable pub user_manage_view : (seen : AdminPage) → List Element
  unfolding card two_tone_bar table dialog form_item user_cells_shown user_details
  user_manage_view seen =
      let cells = seen.views.users in
      card "用户管理" [] (
        two_tone_bar cells.notice
        ++ ((text_input cells.keyword "搜索用户名/邮箱/ID" (λ text. run (Users.set_keyword seen text))
              ∷ button "搜索" false (run (Users.search_users ops seen))
              ∷ button "导出数据" false (run (Users.export_users ops seen))
              ∷ [])
            ++ (table ("用户 ID" ∷ "账号信息" ∷ "当前套餐" ∷ "存储用量" ∷ "风控评级" ∷ "状态" ∷ "注册时间" ∷ "操作" ∷ [])
                  (user_cells_shown seen) (Users.filtered_users ops cells) "没有匹配的用户。"
                ++ (dialog (is_some cells.expiring_user) "强制订阅到期" (run (Users.close_expiry seen))
                      (run (Users.expire_subscription ops seen))
                      (if cells.expiring then "处理中..." else "确认进入保留期") cells.expiring
                      (label (
                          "用户 "
                          <> (if_some cells.expiring_user "" (λ u. u.email)
                              <> " 的当前订阅会立即停止写入，并进入 30 天只读保留期。"))
                        ∷ form_item "操作原因" "" (
                            text_input cells.expire_reason "请输入审计原因"
                              (λ text. run (Users.set_expire_reason seen text))
                            ∷ []))
                    ++ dialog (is_some cells.selected_user) "用户详情"
                        (run (Users.select_user seen none)) (run (Users.select_user seen none)) "关闭"
                        false (if_some cells.selected_user [] user_details)))))

module _ (ops : TextOps) (numbers : Numbers) where
  unfoldable pub hidden_plan_view : (seen : AdminPage) → List Element
  unfolding card two_tone_bar dialog form_item
  hidden_plan_view seen =
      let cells = seen.views.hidden in
      two_tone_bar cells.notice
      ++ ((label "内部隐藏套餐管理 - Infinite Max"
            ∷ label
                "注意：此套餐前台不可见、不可购买，仅通过后台邀请码兑换或管理员发放。它是真无限权益套餐，资源额度显示为不限量，但必须严格受安全风控、违法内容审核、DDoS/WAF 保护规则约束。滥用此套餐可能导致节点资源枯竭。"
            ∷ [])
          ++ (card "Infinite Max 权益配置"
                (button "主动发放给用户" false (run (HiddenPlans.open_confirm seen)) ∷ [])
                (form_item "内部标识" "" (fixed_input "infinite-max" ∷ [])
                  ++ (form_item "套餐别名" "" (fixed_input "Infinite Max (企业赞助/内部测试版)" ∷ [])
                      ++ (form_item "存储配额" "" (fixed_input "不限量 (Unlimited)" ∷ [])
                          ++ (form_item "流量配额" "" (fixed_input "不限量 (Unlimited)" ∷ [])
                              ++ (form_item "API 频率限制" "即使不限量，也必须保留底层 API 限流防 CC 攻击"
                                    (fixed_input "100,000 次 / 分钟" ∷ [])
                                  ++ (form_item "单文件大小限制" "覆盖全局默认设置" (fixed_input "100 MB" ∷ [])
                                      ++ (label "强制安全覆盖策略 (不可取消)"
                                          ∷ tag danger "违法图片自动冻结"
                                          ∷ tag danger "WAF 恶意流量清洗"
                                          ∷ tag danger "异常账单/流量突增告警"
                                          ∷ tag danger "多地异常登录拦截"
                                          ∷ [])))))))
              ++ dialog cells.show_confirm "高风险操作确认：发放 Infinite Max"
                  (run (HiddenPlans.close_confirm seen))
                  (run (HiddenPlans.grant_infinite_max ops numbers seen))
                  (if cells.submitting then "发放中..." else "确认发放并记录审计") cells.submitting
                  (label "您即将向指定用户发放 Infinite Max 无限额度套餐。"
                    ∷ (form_item "目标用户 ID/邮箱" "" (
                          text_input cells.target "输入精确的 ID 或邮箱"
                            (λ text. run (HiddenPlans.set_target seen text))
                          ∷ [])
                        ++ (form_item "发放时长" "" (
                              choice cells.grant_days
                                (("30", "1 个月 (测试)")
                                  ∷ ("365", "1 年")
                                  ∷ ("3650", "10 年 (极高风险)")
                                  ∷ [])
                                (λ text. run (HiddenPlans.set_hidden_days seen text))
                              ∷ [])
                            ++ (form_item "发放事由" "" (
                                  text_input cells.reason "必须填写，将写入审计日志"
                                    (λ text. run (HiddenPlans.set_reason seen text))
                                  ∷ [])
                                ++ (label "系统将自动监控该账户的流量和存储突变情况。如果检测到滥用行为，系统管理员有权随时强制冻结该账户。"
                                    ∷ [])))))))
