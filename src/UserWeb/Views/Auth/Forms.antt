-- ===== src/UserWeb/Views/Auth/Forms.antt =====
-- The forms of AuthView: what a submission leaves.
use infinite_image_hosting.Prelude.{
  if◌then◌else◌, String, ◌≡◌, Bool, true, false, Option, none, some, arith, if_some,
}
use infinite_image_hosting.Async.Program.{Outcome, ok, fail, Thrown, message_or, run}
use infinite_image_hosting.Async.Exec.{exec}
use infinite_image_hosting.UserWeb.Types.{app, User, dashboard, error as error_toast}
use infinite_image_hosting.UserWeb.Mapping.{map_user}
use infinite_image_hosting.UserWeb.Http
use infinite_image_hosting.UserWeb.Http.{Request, Reply, Registered, Mailed}
use infinite_image_hosting.UserWeb.Page.{Page, Running, AuthMode, login, verify, reset, show_toast}
use infinite_image_hosting.UserWeb.App.Account.{
  handle_login, handle_register, handle_verify_email, handle_resend_verification,
  handle_forgot_password, handle_reset_password, start_ifpay_oauth, signed_in,
}
use infinite_image_hosting.UserWeb.Views.Auth.{
  submit, set_auth, submit_login, submit_register, submit_verify, submit_resend, submit_forgot,
  submit_reset, submit_ifpay, reset_email,
}

-- A filled-in form, as its `onSubmit` reads it.
pub data Form : Type 0 where
  login_form : (email password : String) → Form
  register_form : (email password nickname : String) → Form
  verify_form : (typed : String) → Form
  resend_form : Form
  forgot_form : (email : String) → Form
  reset_form : (email typed password : String) → Form
  ifpay_form : Form

abbrev pub submit_form : (seen : Page) → Form → Running
submit_form seen (login_form email password) = run (submit_login email password)
submit_form seen (register_form email password nickname) =
    run (submit_register email password nickname)
submit_form seen (verify_form typed) = run (submit_verify seen typed)
submit_form seen resend_form = run (submit_resend seen)
submit_form seen (forgot_form email) = run (submit_forgot email)
submit_form seen (reset_form email typed password) = run (submit_reset seen email typed password)
submit_form seen ifpay_form = run submit_ifpay

-- The request that the form sends, if it sends one.
abbrev pub request_of : (seen : Page) → Form → Option Request
request_of seen (login_form email password) = some (Http.login email password)
request_of seen (register_form email password nickname) =
    some (Http.register email password nickname)
request_of seen (verify_form typed) =
    if_some seen.auth.pending none (λ p. some (Http.verify_email p.user_id typed))
request_of seen resend_form =
    if_some seen.auth.pending none (λ p. some (Http.resend_verification p.user_id))
request_of seen (forgot_form email) = some (Http.forgot_password email)
request_of seen (reset_form email typed password) =
    some (Http.reset_password (reset_email seen email) typed password)
request_of seen ifpay_form = some Http.ifpay_start

module _ (server : (r : Request) → Outcome (Reply r)) (meanwhile : Page → Page) where
  -- Whatever the server answers and whatever happens meanwhile, a form that sends a request ends
  -- with its button enabled again.
  pub form_ends_enabled :
      (seen s : Page) (f : Form) (r : Request)
      → request_of seen f ≡ some r
      → (exec server meanwhile (submit_form seen f) s).auth.submitting ≡ false
  unfolding submit_login submit_register submit_verify submit_resend submit_forgot submit_reset
      submit_ifpay submit set_auth handle_login handle_register handle_verify_email
      handle_resend_verification handle_forgot_password handle_reset_password start_ifpay_oauth
      show_toast signed_in
  form_ends_enabled seen s (login_form email password) r h = ground arith
  form_ends_enabled seen s _ r h = ground arith

-- If nothing else happens meanwhile, a form whose request fails stays where it is and shows the
-- failure: the mode, the user, the token and what is pending are those from before.
pub form_failure_keeps_mode :
    (seen s : Page) (f : Form) (r : Request) (x : Thrown)
    → request_of seen f ≡ some r
    → let after = exec (λ q. fail x) (λ t. t) (submit_form seen f) s in
      (after.auth.mode ≡ s.auth.mode)
      × (after.auth.pending ≡ s.auth.pending)
      × (after.auth.reset_pending ≡ s.auth.reset_pending)
      × (after.auth.notice ≡ some (record { type = error_toast; text = message_or "操作失败，请稍后再试" x }))
      × (after.user ≡ s.user)
      × (after.token ≡ s.token)
unfolding submit_login submit_register submit_verify submit_resend submit_forgot submit_reset
    submit_ifpay submit set_auth handle_login handle_register handle_verify_email
    handle_resend_verification handle_forgot_password handle_reset_password start_ifpay_oauth
    show_toast signed_in
form_failure_keeps_mode seen s (login_form email password) r x h = ground arith
form_failure_keeps_mode seen s _ r x h = ground arith

-- The mode that a form leads to when its request succeeds.
abbrev pub mode_after : Form → AuthMode → AuthMode
mode_after (register_form _ _ _) mode = verify
mode_after (forgot_form _) mode = reset
mode_after (reset_form _ _ _) mode = login
mode_after _ mode = mode

-- Whether a form's success signs the user in, and as whom and with which token.
abbrev pub signs_in : Form → Bool
signs_in (login_form _ _) = true
signs_in (verify_form _) = true
signs_in _ = false

abbrev pub user_after : ((r : Request) → Reply r) → Request → Option User → Option User
user_after answer (Request.login email password) old =
    some (map_user (answer (Http.login email password)).user)
user_after answer (Request.verify_email user_id c) old =
    some (map_user (answer (Http.verify_email user_id c)))
user_after answer _ old = old

abbrev pub token_after : ((r : Request) → Reply r) → Page → Request → String → String
token_after answer seen (Request.login email password) old =
    (answer (Http.login email password)).token
token_after answer seen (Request.verify_email user_id c) old =
    if_some seen.auth.pending old (λ p. p.token)
token_after answer seen _ old = old

-- If nothing else happens meanwhile, a form whose request succeeds leads to the mode of its kind:
-- registration to verification, a forgotten password to its reset, a reset to sign-in, and the
-- others stay. Sign-in and verification show the dashboard to the user that the server names, with
-- the token from the sign-in or from the registration, in the page and in the browser; the other
-- forms leave the view, the user and the tokens alone.
pub form_success_moves :
    (answer : (r : Request) → Reply r) (seen s : Page) (f : Form) (r : Request)
    → request_of seen f ≡ some r
    → let after = exec (λ q. ok (answer q)) (λ t. t) (submit_form seen f) s in
      (after.auth.mode ≡ mode_after f s.auth.mode)
      × (after.current_view ≡ (if signs_in f then app dashboard else s.current_view))
      × (after.user ≡ user_after answer r s.user)
      × (after.token ≡ token_after answer seen r s.token)
      × (after.browser.stored_token
          ≡ (if signs_in f then some after.token else s.browser.stored_token))
unfolding submit_login submit_register submit_verify submit_resend submit_forgot submit_reset
    submit_ifpay submit set_auth handle_login handle_register handle_verify_email
    handle_resend_verification handle_forgot_password handle_reset_password start_ifpay_oauth
    show_toast signed_in
form_success_moves answer seen s (login_form _ _) r h =
    (ground arith, ground arith, ground arith, ground arith, ground arith)
form_success_moves answer seen s (register_form _ _ _) r h =
    (ground arith, ground arith, ground arith, ground arith, ground arith)
form_success_moves answer seen s (verify_form _) r h =
    (ground arith, ground arith, ground arith, ground arith, ground arith)
form_success_moves answer seen s resend_form r h =
    (ground arith, ground arith, ground arith, ground arith, ground arith)
form_success_moves answer seen s (forgot_form _) r h =
    (ground arith, ground arith, ground arith, ground arith, ground arith)
form_success_moves answer seen s (reset_form _ _ _) r h =
    (ground arith, ground arith, ground arith, ground arith, ground arith)
form_success_moves answer seen s ifpay_form r h =
    (ground arith, ground arith, ground arith, ground arith, ground arith)
