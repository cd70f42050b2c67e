-- ===== src/AdminWeb/Gate.antt =====
-- AdminAuthGate: the first account, the second factor and sign-in.
use infinite_image_hosting.Prelude.{
  ℕ, ◌==◌, String, true, false, not, ◌&&◌, if◌then◌else◌, truthy, none, some, if_some, is_some,
}
use infinite_image_hosting.Async.Program.{message_or, pure, set_state, get_state}
use infinite_image_hosting.UserWeb.Mapping.{before_at}
use infinite_image_hosting.AdminWeb.Types.{AdminAuthResult, AdminAuthStatus}
use infinite_image_hosting.AdminWeb.Calls
use infinite_image_hosting.AdminWeb.Page.{
  ◌>>=◌, ◌>>◌, caught, ensured, AdminPage, Handler, session_token, put_stored, set_gate,
}
use infinite_image_hosting.AdminWeb.Session.{auth_request, handle_authenticated}

-- `if (cancelled) return; …`: what the status says, at the page `s` that it reaches
unfoldable pub apply_status : (mount : ℕ) → AdminAuthStatus → AdminPage → Handler (Unit {0})
unfolding set_gate handle_authenticated
apply_status mount status s =
    if s.tree == mount
    then (do
      set_gate mount (λ g. record g { setup_required = status.setup_required })
      if_some status.admin
          (if truthy (session_token s) then set_state (put_stored none) else pure tt)
          (λ admin. handle_authenticated admin (session_token s)))
    else pure tt

unfoldable pub status_effect : (seen : AdminPage) → Handler (Unit {0})
unfolding auth_request apply_status set_gate
status_effect seen =
    ensured
      (caught
        (do status ← auth_request Calls.auth_status; s ← get_state; apply_status seen.tree status s)
        (λ x. set_gate seen.tree (λ g. record g { notice = message_or "管理员状态读取失败" x })))
      (set_gate seen.tree (λ g. record g { loading = false }))

-- `try { setSubmitting(true); setNotice(""); … } catch … finally …`
unfoldable pub submitting :
    (mount : ℕ) → (fallback : String) → Handler (Unit {0}) → Handler (Unit {0})
unfolding set_gate
submitting mount fallback task =
    ensured
      (caught
        (do
          set_gate mount (λ g. record g { submitting = true })
          set_gate mount (λ g. record g { notice = "" })
          task)
        (λ x. set_gate mount (λ g. record g { notice = message_or fallback x })))
      (set_gate mount (λ g. record g { submitting = false }))

unfoldable pub start_bootstrap : (seen : AdminPage) → Handler (Unit {0})
unfolding submitting auth_request before_at set_gate
start_bootstrap seen =
    if seen.gate.submitting
    then pure tt
    else submitting seen.tree "管理员初始化失败" (do
      result ←
          auth_request
            (Calls.bootstrap_start seen.gate.email (before_at seen.gate.email) seen.gate.password)
      set_gate seen.tree (λ g. record g { setup = some result }))

-- `localStorage.setItem(ADMIN_SESSION_KEY, result.token); onAuthenticated(result.admin, result.token)`
unfoldable pub sign_in : AdminAuthResult → Handler (Unit {0})
unfolding handle_authenticated
sign_in result = do
  set_state (put_stored (some result.token))
  handle_authenticated result.admin result.token

unfoldable pub complete_bootstrap : (seen : AdminPage) → Handler (Unit {0})
unfolding submitting auth_request sign_in
complete_bootstrap seen = if_some seen.gate.setup (pure tt) (λ setup.
    if seen.gate.submitting
    then pure tt
    else submitting seen.tree "两步验证失败" (do
      result ← auth_request (Calls.bootstrap_complete setup.setup_token seen.gate.totp_code)
      sign_in result))

unfoldable pub login : (seen : AdminPage) → Handler (Unit {0})
unfolding submitting auth_request sign_in
login seen =
    if seen.gate.submitting
    then pure tt
    else submitting seen.tree "管理员登录失败" (do
      result ←
          auth_request (Calls.auth_login seen.gate.email seen.gate.password seen.gate.totp_code)
      sign_in result)

unfoldable pub submit_current_step : (seen : AdminPage) → Handler (Unit {0})
unfolding start_bootstrap complete_bootstrap login
submit_current_step seen =
    if seen.gate.loading
    then pure tt
    else if seen.gate.setup_required && not (is_some seen.gate.setup)
    then start_bootstrap seen
    else if seen.gate.setup_required && is_some seen.gate.setup
    then complete_bootstrap seen
    else login seen

-- The inputs.
unfoldable pub set_email : (seen : AdminPage) → String → Handler (Unit {0})
set_email seen text = set_gate seen.tree (λ g. record g { email = text })

unfoldable pub set_password : (seen : AdminPage) → String → Handler (Unit {0})
set_password seen text = set_gate seen.tree (λ g. record g { password = text })

unfoldable pub set_totp_code : (seen : AdminPage) → String → Handler (Unit {0})
set_totp_code seen text = set_gate seen.tree (λ g. record g { totp_code = text })
