-- ===== src/UserWeb/Render/ApiKeys.antt =====
-- What ApiView shows.
use infinite_image_hosting.Prelude.{◌<>◌, String, not, if◌then◌else◌, truthy, List, [], ◌∷◌, ◌++◌}
use infinite_image_hosting.Async.Program.{run}
use infinite_image_hosting.UserWeb.Types.{User, ApiKey}
use infinite_image_hosting.UserWeb.Page.{Page}
use infinite_image_hosting.UserWeb.Views.ApiKeys.{create_key, revoke_key, resend_verification}
use infinite_image_hosting.UserWeb.Html.{Element, label, button, shown_if, each}

unfoldable pub key_row : (token : String) → ApiKey → List Element
key_row token key =
    label key.name
    ∷ label (key.prefix <> "****************")
    ∷ label (if key.revoked then "已撤销" else "启用中")
    ∷ button "撤销" key.revoked (run (revoke_key token key.id))
    ∷ []

unfoldable pub key_rows : (token : String) → List ApiKey → List Element
unfolding key_row
key_rows token [] = label "暂无 API Key，点击“创建 Key”生成生产访问密钥。" ∷ []
key_rows token (k ∷ keys) = each (key_row token) (k ∷ keys)

-- The configuration that PicGo is given.
abbrev picgo : String
picgo =
    "{\n  \"picBed\": {\n    \"uploader\": \"yuexiang-oss\",\n    \"yuexiang-oss\": {\n      \"accessKey\": \"YOUR_ACCESS_KEY\",\n      \"bucket\": \"default-prod\",\n      \"region\": \"cn-east-1\",\n      \"path\": \"images/{year}/{month}/\"\n    }\n  }\n}"

unfoldable pub api_view : (seen : Page) → User → List Element
unfolding key_rows
api_view seen user =
    let resending = seen.api.resending in
    shown_if (not user.email_verified) (
      label "当前邮箱尚未验证。为保护长期访问密钥，验证完成后才能创建新的 API Key。"
      ∷ button (if resending then "发送中..." else "重发验证码") resending
          (run (resend_verification user.id))
      ∷ [])
    ++ ((label "AccessKey 管理"
          ∷ button "创建 Key" (not user.email_verified) (run (create_key user seen.token))
          ∷ [])
        ++ (shown_if (truthy seen.api.latest_secret) (label seen.api.latest_secret ∷ [])
            ++ (key_rows seen.token seen.api.keys
                ++ (label "* AccessKey 只在创建后展示一次，服务端仅保存 HMAC 哈希，请勿硬编码在客户端代码或公开 Git 仓库中。"
                    ∷ label "配置示例 (PicGo JSON)"
                    ∷ label picgo
                    ∷ []))))
