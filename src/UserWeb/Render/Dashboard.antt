-- ===== src/UserWeb/Render/Dashboard.antt =====
-- DashboardView.
use infinite_image_hosting.Prelude.{◌or◌, ◌<>◌, Option, none, List, [], ◌∷◌, ◌++◌, get_or, if_some}
use infinite_image_hosting.UserWeb.Types.{User, ApiUsage, PricingPlan}
use infinite_image_hosting.UserWeb.Format.{
  Floats, format_bytes, format_quota_bytes, format_quota_count, format_usage_count, meter_percent,
}
use infinite_image_hosting.UserWeb.Html.{Element, label, usage_meter}
use infinite_image_hosting.UserWeb.Render.Layout.{current_plan, storage_limit}

module _ (floats : Floats) where
  unfoldable pub dashboard_view : User → ApiUsage → List PricingPlan → List Element
  unfolding current_plan format_bytes format_quota_bytes format_quota_count format_usage_count
      meter_percent
  dashboard_view user usage plans =
      let plan = current_plan user plans in
      let images = get_or usage.image_requests 0 in
      let traffic = get_or usage.bandwidth_bytes 0 in
      let storage = get_or usage.storage_bytes 0 in
      let events = get_or usage.image_process_events 0 in
      let calls = get_or usage.api_calls 0 in
      let traffic_limit = if_some plan none (λ p. p.bandwidth_bytes) in
      let call_limit = if_some plan none (λ p. p.api_calls) in
      let event_limit = if_some plan none (λ p. p.image_process_events) in
      (label "本月图片请求"
        ∷ label (format_usage_count floats images)
        ∷ label "本月下行流量"
        ∷ label (format_quota_bytes (Option.some traffic))
        ∷ label "节点存储容量"
        ∷ label (format_bytes storage)
        ∷ label "边缘处理次数"
        ∷ label (format_usage_count floats events)
        ∷ label ("资源消耗水位 (实例: " <> (user.plan <> ")"))
        ∷ [])
      ++ (usage_meter "对象存储容量" (format_bytes storage) (format_quota_bytes (storage_limit plan)) ""
            (meter_percent floats storage (storage_limit plan))
          ++ (usage_meter "CDN 回源流量" (format_quota_bytes (Option.some traffic))
                (format_quota_bytes traffic_limit) "" (meter_percent floats traffic traffic_limit)
              ++ (usage_meter "OpenAPI 调用" (format_usage_count floats calls)
                    (format_quota_count floats call_limit) "次"
                    (meter_percent floats calls call_limit)
                  ++ (usage_meter "边缘计算 (水印/转换)" (format_usage_count floats events)
                        (format_quota_count floats event_limit) "次"
                        (meter_percent floats events event_limit)
                      ++ (label "* 统计存在一定延迟，账单周期：自然月。每月 1 日 00:00 (UTC+8) 重置计费项。"
                          ∷ label "系统状态 / 策略"
                          ∷ label "Runtime"
                          ∷ label "实时"
                          ∷ label (
                              "当前套餐："
                              <> (if_some plan user.plan (λ p. p.name or user.plan)
                                  <> "，上传对象会自动进入私有 Bucket 并触发派生图处理任务。"))
                          ∷ label "Policy"
                          ∷ label "生效中"
                          ∷ label "公开图仍受防盗链策略保护；私有图需要登录态或短期签名 URL 才能访问。"
                          ∷ [])))))
