-- ===== src/UserWeb/Views/ApiKeys.antt =====
-- ApiView: listing, creating and revoking API keys.
pub mod Keys
use infinite_image_hosting.Prelude.{String, true, false, not, if◌then◌else◌, truthy}
use infinite_image_hosting.Async.Program.{pure, set_state, fetch, try_finally, detach, ◌>>=◌, ◌>>◌}
use infinite_image_hosting.UserWeb.Http
use infinite_image_hosting.UserWeb.Types.{User, success, error as error_toast}
use infinite_image_hosting.UserWeb.Page.{Handler, ApiState, show_toast, show_error}
use infinite_image_hosting.UserWeb.Views.Upload.{on_resend_verification}

unfoldable pub set_api : (ApiState → ApiState) → Handler (Unit {0})
set_api f = set_state (λ s. record s { api = f s.api })

unfoldable pub load_keys : (token : String) → Handler (Unit {0})
load_keys token =
    if not (truthy token)
    then pure tt
    else show_error "API Key 加载失败"
        (do keys ← fetch (Http.list_api_keys token); set_api (λ a. record a { keys = keys }))

-- `user` and `token` are the props of the render. `loadKeys()` is not awaited.
unfoldable pub create_key : User → (token : String) → Handler (Unit {0})
create_key user token =
    if not user.email_verified
    then show_toast "请先完成邮箱验证再创建 API Key" error_toast
    else show_error "API Key 创建失败" (do
      secret ← fetch (Http.create_api_key token)
      set_api (λ a. record a { latest_secret = secret })
      show_toast "API Key 已创建，请立即保存" success
      detach (load_keys token))

unfoldable pub revoke_key : (token : String) → (key_id : String) → Handler (Unit {0})
revoke_key token key_id = show_error "撤销失败" (do
  _ ← fetch (Http.revoke_api_key key_id token)
  show_toast "API Key 已撤销" success
  detach (load_keys token))

unfoldable pub resend_verification : (user_id : String) → Handler (Unit {0})
resend_verification user_id = do
  set_api (λ a. record a { resending = true })
  try_finally (on_resend_verification user_id) (set_api (λ a. record a { resending = false }))
