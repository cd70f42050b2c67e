-- ===== src/UserWeb/Session/Views/Auth.antt =====
-- The handlers of AuthView and the tokens of the session.
use infinite_image_hosting.Prelude.{String}
use infinite_image_hosting.Async.Rules.{Holds, Holds-then, Holds-try_finally, Holds-try_catch}
use infinite_image_hosting.UserWeb.Page.{Page, Handler, AuthMode, AuthState}
use infinite_image_hosting.UserWeb.Views.Auth
use infinite_image_hosting.UserWeb.Session.InSync.{
  InSync, sync_steps, Holds-start_ifpay_oauth, Holds-handle_login, Holds-handle_register,
  Holds-handle_verify_email, Holds-handle_resend_verification, Holds-handle_forgot_password,
  Holds-handle_reset_password,
}

pub Holds-set_auth : (f : AuthState → AuthState) → Holds InSync (Auth.set_auth f)
unfolding Auth.set_auth
Holds-set_auth f = search sync_steps

pub Holds-submit : (task : Handler (Unit {0})) → Holds InSync task → Holds InSync (Auth.submit task)
unfolding Auth.submit
Holds-submit task h =
    Holds-then _ _ (Holds-set_auth _)
      (Holds-try_finally _ _ (Holds-try_catch _ _ h (λ x. Holds-set_auth _)) (Holds-set_auth _))

pub Holds-switch_mode : (mode : AuthMode) → Holds InSync (Auth.switch_mode mode)
unfolding Auth.switch_mode
Holds-switch_mode mode = search (sync_steps, Holds-set_auth) depth 14

pub Holds-submit_login : (email password : String) → Holds InSync (Auth.submit_login email password)
unfolding Auth.submit_login
Holds-submit_login email password = search (sync_steps, Holds-submit, Holds-handle_login) depth 14

pub Holds-submit_register :
    (email password nickname : String) → Holds InSync (Auth.submit_register email password nickname)
unfolding Auth.submit_register
Holds-submit_register email password nickname =
    search (sync_steps, Holds-submit, Holds-handle_register, Holds-set_auth) depth 14

pub Holds-submit_verify :
    (seen : Page) (typed : String) → Holds InSync (Auth.submit_verify seen typed)
unfolding Auth.submit_verify
Holds-submit_verify seen typed =
    search (sync_steps, Holds-submit, Holds-handle_verify_email, Holds-set_auth) depth 14

pub Holds-submit_resend : (seen : Page) → Holds InSync (Auth.submit_resend seen)
unfolding Auth.submit_resend
Holds-submit_resend seen =
    search (sync_steps, Holds-submit, Holds-handle_resend_verification, Holds-set_auth) depth 14

pub Holds-submit_forgot : (email : String) → Holds InSync (Auth.submit_forgot email)
unfolding Auth.submit_forgot
Holds-submit_forgot email =
    search (sync_steps, Holds-submit, Holds-handle_forgot_password, Holds-set_auth) depth 14

pub Holds-submit_reset :
    (seen : Page) (email typed password : String)
    → Holds InSync (Auth.submit_reset seen email typed password)
unfolding Auth.submit_reset
Holds-submit_reset seen email typed password =
    search (sync_steps, Holds-submit, Holds-handle_reset_password, Holds-set_auth) depth 14

pub Holds-submit_ifpay : Holds InSync Auth.submit_ifpay
unfolding Auth.submit_ifpay
Holds-submit_ifpay = search (sync_steps, Holds-submit, Holds-start_ifpay_oauth) depth 14
