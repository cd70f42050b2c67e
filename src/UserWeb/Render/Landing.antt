-- ===== src/UserWeb/Render/Landing.antt =====
-- What LandingView and SecurityView show. A button that scrolls leaves the page as it is.
use infinite_image_hosting.Prelude.{◌<>◌, String, false, truthy, List, [], ◌∷◌, ◌++◌}
use infinite_image_hosting.Async.Program.{Prog, run}
use infinite_image_hosting.UserWeb.Types.{PricingPlan}
use infinite_image_hosting.UserWeb.Format.{show}
use infinite_image_hosting.UserWeb.Page.{Page, Running}
use infinite_image_hosting.UserWeb.App.Navigation.{to_auth, open_docs}
use infinite_image_hosting.UserWeb.Html.{Element, label, button, picture, shown_if, each}

-- `scrollToLandingSection`
unfoldable pub scroll_to_landing_section : (id : String) → Running
scroll_to_landing_section id = Prog.stop

unfoldable pub landing_plan : PricingPlan → List Element
landing_plan plan =
    shown_if plan.popular (label "推荐配置" ∷ [])
    ++ (label plan.name
        ∷ label ("¥" <> show plan.price_mo)
        ∷ label "/ 月"
        ∷ label (plan.storage <> " 分布式存储")
        ∷ label (plan.traffic <> " 下行回源流量")
        ∷ label (plan.requests <> " 次 HTTP 请求")
        ∷ label (plan.api <> " 次 API 限额")
        ∷ label (plan.process <> " 图像边缘处理")
        ∷ button ("部署 " <> (plan.name <> " 实例")) false (run to_auth)
        ∷ [])

unfoldable pub landing_plans : List PricingPlan → List Element
unfolding landing_plan
landing_plans [] = label "套餐配置暂不可用，请稍后刷新或联系管理员。" ∷ []
landing_plans (p ∷ plans) = each landing_plan (p ∷ plans)

-- The header and the first section.
unfoldable pub landing_head : List Element
unfolding scroll_to_landing_section
landing_head =
    label "悦享图床"
    ∷ button "架构优势" false (scroll_to_landing_section "features")
    ∷ button "安全控制" false (scroll_to_landing_section "security")
    ∷ button "订阅计费" false (scroll_to_landing_section "pricing")
    ∷ button "开放 API" false (run open_docs)
    ∷ button "登录控制台" false (run to_auth)
    ∷ button "立即开通" false (run to_auth)
    ∷ label "Serverless 架构 稳定版已上线"
    ∷ label "高可用企业级 对象存储与分发平台"
    ∷ label "专为开发者构建的基础设施。提供低延迟全球 CDN 节点、严格的防盗链鉴权机制、高吞吐量的 OpenAPI 以及自动化的数据容灾备份方案。"
    ∷ button "访问控制台" false (run to_auth)
    ∷ button "阅读技术文档" false (run open_docs)
    ∷ picture
        "https://images.unsplash.com/photo-1618005182384-a83a8bd57fbe?q=80&w=1200&auto=format&fit=crop"
        "Console Preview"
    ∷ []

-- The sections "features" and "security".
unfoldable pub landing_sections : List Element
landing_sections =
    label "从上传到分发的完整基础设施"
    ∷ label "对象存储、边缘处理、签名访问和任务队列都已串成真实业务链路。"
    ∷ label "私有 Bucket 存储"
    ∷ label "原图与派生图进入对象存储，删除、冻结和备份都回写真实后端状态。"
    ∷ label "CDN 分发入口"
    ∷ label "统一通过 /i/{public_id} 分发，公开图可缓存，私有图走短期签名 URL。"
    ∷ label "异步图像处理"
    ∷ label "上传后投递处理任务，支持缩略图、WebP 与后续扩展的边缘处理额度。"
    ∷ label "开放 API 能力"
    ∷ label "前台、后台、API Key、备份、审计和 IF-Pay 支付路径统一走 OpenAPI。"
    ∷ label "风控策略已接入"
    ∷ label "默认按生产安全模型设计"
    ∷ label "防盗链、私有读、短期签名、违规 pHash、冻结删除和审计日志不是页面装饰，后台都有对应接口和状态流转。"
    ∷ label "Referer 防盗链"
    ∷ label "后台可维护允许/阻断域名，图片分发入口实时应用。"
    ∷ label "STS 签名 URL"
    ∷ label "私有对象通过 15 分钟短链访问，避免长期裸链泄露。"
    ∷ label "内容治理队列"
    ∷ label "命中违规特征可冻结对象，并在管理端人工复核删除。"
    ∷ label "安全审计日志"
    ∷ label "套餐发放、订单对账、冻结删除、配置变更都会写入审计。"
    ∷ []

unfoldable pub landing_view : (seen : Page) → List Element
unfolding landing_head landing_sections landing_plans
landing_view seen =
    landing_head
    ++ (landing_sections
        ++ ((label "透明、可预测的计费模型" ∷ label "按照您的实际业务规模选择合适的计算与存储配额。" ∷ [])
            ++ (shown_if (truthy seen.plans_error) (label seen.plans_error ∷ [])
                ++ (landing_plans seen.plans
                    ++ (label "实例到期后进入 30 天资源保留期，保留期内停止写入权限。超过 30 天将触发自动销毁脚本，数据不可恢复。" ∷ [])))))

unfoldable pub security_view : List Element
security_view =
    label "业务安全合规声明："
    ∷ label
        "系统发现非法 Referer 请求时，将触发 HTTP 403 或返回预设的兜底错误图。若对象被外部恶意保存或分发形成副本，控制台将无法跨域执行 DELETE。针对外溢数据，需依托底层注入的数字盲水印及 pHash 指纹进行链路溯源。"
    ∷ label "边缘安全策略"
    ∷ label "Referer 白名单鉴权"
    ∷ label "限制 CDN 节点仅响应来自受信任域的 GET 请求。"
    ∷ label "ACL 规则表 (支持泛域名匹配)"
    ∷ label "*.yourdomain.com"
    ∷ label "localhost:*"
    ∷ label "Bucket 强校验模式 (Private Read)"
    ∷ label "拒绝所有匿名访问，请求必须携带有效的 STS Token 或签名参数。"
    ∷ label "风险控制服务"
    ∷ label "WAF & IP 频控"
    ∷ label "基于边缘节点的异常 IP 阻断与 CC 防护"
    ∷ label "隐写追踪水印"
    ∷ label "图片编解码层面的肉眼不可见身份标识"
    ∷ label "pHash 特征库"
    ∷ label "违规图库碰撞拦截与变种重传识别"
    ∷ label "MFA 设备绑定"
    ∷ label "控制台登录启用双重身份验证 (2FA)"
    ∷ []
