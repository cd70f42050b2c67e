-- ===== src/UserWeb/Render/Auth.antt =====
-- What AuthView shows: the form of the mode that it is in. A form's handler reads its fields by
-- their names, a missing one as "".
use infinite_image_hosting.Prelude.{
  ◌<>◌, String, true, false, not, ◌||◌, if◌then◌else◌, ◌or◌, get_or, if_some, is_some, List, [],
  ◌∷◌, ◌++◌,
}
use infinite_image_hosting.Async.Program.{run}
use infinite_image_hosting.UserWeb.Page.{
  Page, AuthState, AuthMode, login, register, verify, forgot, reset,
}
use infinite_image_hosting.UserWeb.App.Navigation.{to_landing}
use infinite_image_hosting.UserWeb.Views.Auth.{
  submit_login, submit_register, submit_verify, submit_resend, submit_forgot, submit_reset,
  submit_ifpay, switch_mode,
}
use infinite_image_hosting.UserWeb.Html.{
  Element, label, button, entry, form_field, submit_button, shown_if,
}

unfoldable pub mode_title : AuthMode → String
mode_title login = "控制台登录"
mode_title register = "创建账号"
mode_title verify = "邮箱验证"
mode_title forgot = "找回密码"
mode_title reset = "重置密码"

unfoldable pub mode_text : AuthMode → AuthState → String
mode_text verify a = "验证码已发送至 " <> (if_some a.pending "" (λ p. p.email) or "注册邮箱")
mode_text reset a = "验证码已发送至 " <> (if_some a.reset_pending "" (λ p. p.email) or "邮箱")
mode_text _ a = "企业级对象存储与分发控制台"

-- The two buttons above the login and the registration form.
unfoldable pub mode_tabs : AuthMode → List Element
mode_tabs login =
    entry "登录" true (run (switch_mode login)) ∷ entry "注册" false (run (switch_mode register)) ∷ []
mode_tabs register =
    entry "登录" false (run (switch_mode login)) ∷ entry "注册" true (run (switch_mode register)) ∷ []
mode_tabs _ = []

abbrev back_to_login : Element
back_to_login = button "返回登录" false (run (switch_mode login))

unfoldable pub mode_form : (seen : Page) → AuthMode → List Element
mode_form seen login =
    label "邮箱"
    ∷ form_field "email" "email" "name@company.com" ""
    ∷ label "访问密码"
    ∷ button "忘记密码?" false (run (switch_mode forgot))
    ∷ form_field "password" "password" "请输入访问密码" ""
    ∷ submit_button (if seen.auth.submitting then "登录中..." else "登录") seen.auth.submitting
        (λ form. run (submit_login (form "email") (form "password")))
    ∷ []
mode_form seen register =
    label "管理员别名"
    ∷ form_field "nickname" "text" "例如：Seron" ""
    ∷ label "邮箱"
    ∷ form_field "email" "email" "name@company.com" ""
    ∷ label "访问密码"
    ∷ form_field "password" "password" "至少 8 位" ""
    ∷ submit_button (if seen.auth.submitting then "创建中..." else "创建账号并发送验证码") seen.auth.submitting
        (λ form. run (submit_register (form "email") (form "password") (form "nickname")))
    ∷ []
mode_form seen verify =
    label "邮箱验证码"
    ∷ form_field "code" "text" "输入 6 位验证码"
        (if_some seen.auth.pending "" (λ p. get_or p.dev_code ""))
    ∷ submit_button (if seen.auth.submitting then "验证中..." else "完成验证并进入控制台") seen.auth.submitting
        (λ form. run (submit_verify seen (form "code")))
    ∷ button "重新发送验证码" (seen.auth.submitting || not (is_some seen.auth.pending))
        (run (submit_resend seen))
    ∷ back_to_login
    ∷ []
mode_form seen forgot =
    label "账号邮箱"
    ∷ form_field "email" "email" "name@company.com" ""
    ∷ submit_button (if seen.auth.submitting then "发送中..." else "发送重置验证码") seen.auth.submitting
        (λ form. run (submit_forgot (form "email")))
    ∷ back_to_login
    ∷ []
mode_form seen reset =
    shown_if (not (is_some seen.auth.reset_pending))
      (label "账号邮箱" ∷ form_field "email" "email" "name@company.com" "" ∷ [])
    ++ (label "重置验证码"
        ∷ form_field "code" "text" "输入验证码"
            (if_some seen.auth.reset_pending "" (λ p. get_or p.dev_code ""))
        ∷ label "新密码"
        ∷ form_field "password" "password" "至少 8 位" ""
        ∷ submit_button (if seen.auth.submitting then "重置中..." else "重置密码") seen.auth.submitting
            (λ form. run (submit_reset seen (form "email") (form "code") (form "password")))
        ∷ back_to_login
        ∷ [])

unfoldable pub auth_view : (seen : Page) → List Element
unfolding mode_title mode_text mode_tabs mode_form
auth_view seen =
    let mode = seen.auth.mode in
    (button "返回" false (run to_landing)
      ∷ label (mode_title mode)
      ∷ label (mode_text mode seen.auth)
      ∷ [])
    ++ (if_some seen.auth.notice [] (λ n. label n.text ∷ [])
        ++ (mode_tabs mode
            ++ (mode_form seen mode
                ++ (label "IF-Pay 接入"
                    ∷ button "使用 IF-Pay 授权登录" seen.auth.submitting (run submit_ifpay)
                    ∷ []))))
