-- ===== src/UserWeb/Views/Auth.antt =====
-- AuthView: the forms for sign in, registration, verification and password reset.
pub mod Forms
use infinite_image_hosting.Prelude.{
  if_some, String, ◌<>◌, true, false, if◌then◌else◌, ◌or◌, truthy, Option, none, some, get_or,
}
use infinite_image_hosting.Async.Program.{
  message_or, pure, set_state, try_catch, try_finally, ◌>>=◌, ◌>>◌,
}
use infinite_image_hosting.UserWeb.Types.{ToastType, success, error as error_toast}
use infinite_image_hosting.UserWeb.Page.{Page, Handler, AuthState, AuthMode, login, verify, reset}
use infinite_image_hosting.UserWeb.App.Account.{
  handle_login, handle_register, handle_verify_email, handle_resend_verification,
  handle_forgot_password, handle_reset_password, start_ifpay_oauth,
}

unfoldable pub set_auth : (AuthState → AuthState) → Handler (Unit {0})
set_auth f = set_state (λ s. record s { auth = f s.auth })

abbrev pub put_mode : AuthMode → AuthState → AuthState
put_mode mode a = record a { mode = mode }

abbrev put_notice : ToastType → String → AuthState → AuthState
put_notice type text a = record a { notice = some (record { type = type; text = text }) }

-- A form's task, with the button disabled while it runs and a notice if it throws.
unfoldable pub submit : Handler (Unit {0}) → Handler (Unit {0})
submit task = do
  set_auth (λ a. record a { submitting = true; notice = none })
  try_finally (try_catch task (λ x. set_auth (put_notice error_toast (message_or "操作失败，请稍后再试" x))))
      (set_auth (λ a. record a { submitting = false }))

-- `setMode` of the buttons that switch between the forms
unfoldable pub switch_mode : AuthMode → Handler (Unit {0})
switch_mode mode = set_auth (put_mode mode)

-- A notice with the code where the server sends it, as it does in development.
abbrev code_notice : Option String → String → AuthState → AuthState
code_notice dev_code fallback =
    put_notice success
      (if truthy (get_or dev_code "") then "本地开发验证码：" <> get_or dev_code "" else fallback)

unfoldable pub submit_login : String → String → Handler (Unit {0})
submit_login email password = submit (handle_login email password)

unfoldable pub submit_register : String → String → String → Handler (Unit {0})
submit_register email password nickname = submit (do
  result ← handle_register email password nickname
  set_auth (λ a.
      code_notice result.dev_code "验证码已发送，请检查邮箱。"
        (record a { pending = some result; mode = verify })))

-- `seen` is the render that the form stands in
unfoldable pub submit_verify : (seen : Page) → String → Handler (Unit {0})
submit_verify seen verification_code =
    if_some seen.auth.pending (set_auth (put_notice error_toast "注册上下文已过期，请重新注册。"))
      (λ pending. submit (handle_verify_email pending.user_id verification_code pending.token))

unfoldable pub submit_resend : (seen : Page) → Handler (Unit {0})
submit_resend seen = if_some seen.auth.pending (pure tt) (λ pending. submit (do
  dev_code ← handle_resend_verification pending.user_id
  set_auth (λ a.
      code_notice dev_code "验证码已重新发送，请检查邮箱。"
        (record a { pending = some (record pending { dev_code = dev_code }) }))))

unfoldable pub submit_forgot : String → Handler (Unit {0})
submit_forgot email = submit (do
  result ← handle_forgot_password email
  set_auth (λ a.
      code_notice result.dev_code "如果邮箱存在，系统会发送重置验证码。"
        (record a { reset_pending = some result; mode = reset })))

-- `resetPending?.email || form.get("email")`
abbrev pub reset_email : Page → String → String
reset_email seen typed = if_some seen.auth.reset_pending typed (λ r. r.email or typed)

unfoldable pub submit_reset : (seen : Page) → String → String → String → Handler (Unit {0})
submit_reset seen typed_email verification_code password = submit (do
  handle_reset_password (reset_email seen typed_email) verification_code password
  set_auth (λ a. record a { reset_pending = none; mode = login }))

unfoldable pub submit_ifpay : Handler (Unit {0})
submit_ifpay = submit start_ifpay_oauth
