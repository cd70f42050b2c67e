-- ===== src/UserWeb/App/Account.antt =====
-- What App does for an account: sign in and out, registration, mail codes, payment.
use infinite_image_hosting.Prelude.{
  ◌+◌, String, ◌<>◌, not, if◌then◌else◌, ◌or◌, truthy, Option, none, some, get_or,
}
use infinite_image_hosting.Async.Program.{pure, set_state, fetch, ◌>>=◌, ◌>>◌}
use infinite_image_hosting.UserWeb.Types.{
  User, landing, auth, app, dashboard, success, error as error_toast, info, RegisterResult,
  ForgotPasswordResult, BillingCycle,
}
use infinite_image_hosting.UserWeb.Mapping.{map_user}
use infinite_image_hosting.UserWeb.Http
use infinite_image_hosting.UserWeb.Page.{Page, Handler, no_usage, put_view, show_toast}

-- What a sign-in sets: the token in both places, the user, no usage yet, and the first view.
unfoldable pub signed_in : String → User → Page → Page
signed_in token user s = record s {
  browser = record s.browser { stored_token = some token };
  token = token;
  user = some user;
  usage = no_usage;
  current_view = app dashboard;
}

unfoldable pub handle_login : String → String → Handler (Unit {0})
handle_login email password = do
  session ← fetch (Http.login email password)
  set_state (signed_in session.token (map_user session.user))
  show_toast "登录成功" success

unfoldable pub handle_register : String → String → String → Handler RegisterResult
handle_register email password nickname = do
  registered ← fetch (Http.register email password nickname)
  show_toast "注册成功，请输入邮箱验证码" success
  pure (record {
    user_id = registered.user.id;
    email = registered.user.email;
    token = registered.token;
    dev_code = registered.dev_email_verification_code;
  })

unfoldable pub handle_verify_email : String → String → String → Handler (Unit {0})
handle_verify_email user_id verification_code next_token = do
  verified ← fetch (Http.verify_email user_id verification_code)
  set_state (signed_in next_token (map_user verified))
  show_toast "邮箱验证完成" success

unfoldable pub handle_resend_verification : String → Handler (Option String)
handle_resend_verification user_id = do
  mailed ← fetch (Http.resend_verification user_id)
  show_toast (mailed.message or "验证码已重新发送") success
  pure mailed.dev_code

unfoldable pub handle_forgot_password : String → Handler ForgotPasswordResult
handle_forgot_password email = do
  mailed ← fetch (Http.forgot_password email)
  show_toast (mailed.message or "如果邮箱存在，系统会发送重置验证码") success
  pure (record { email = email; dev_code = mailed.dev_code })

unfoldable pub handle_reset_password : String → String → String → Handler (Unit {0})
handle_reset_password email verification_code new_password = do
  _ ← fetch (Http.reset_password email verification_code new_password)
  show_toast "密码已重置，请重新登录" success

unfoldable pub start_ifpay_oauth : Handler (Unit {0})
start_ifpay_oauth = do
  url ← fetch Http.ifpay_start
  set_state (λ s. record s { browser = record s.browser { assigned = some url } })

unfoldable pub handle_checkout : (seen : Page) → String → BillingCycle → Handler (Unit {0})
handle_checkout seen plan_slug cycle =
    if not (truthy seen.token)
    then (do set_state (put_view auth); show_toast "请先登录后再订购资源包" error_toast)
    else if not (truthy seen.ifpay_token)
    then (do show_toast "请先完成 IF-Pay 授权" info; start_ifpay_oauth)
    else (do
      made ← fetch (Http.checkout_ifpay plan_slug cycle seen.ifpay_token seen.token)
      show_toast ("订单已创建：" <> (made.order_id <> ("，支付状态 " <> made.payment_status))) success
      set_state (λ s. record s { orders_refresh_key = s.orders_refresh_key + 1 }))

unfoldable pub refresh_account : (seen : Page) → Handler (Unit {0})
refresh_account seen = if not (truthy seen.token) then pure tt else (do
  me ← fetch (Http.get_me seen.token)
  set_state (λ s. record s { user = some (map_user me.user); usage = get_or me.usage no_usage }))

unfoldable pub handle_logout : Handler (Unit {0})
handle_logout = do
  set_state (λ s. record s {
    user = none;
    usage = no_usage;
    token = "";
    ifpay_token = "";
    browser = record s.browser { stored_token = none; stored_ifpay = none };
    current_view = landing;
  })
  show_toast "已安全退出" info
