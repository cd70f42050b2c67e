-- ===== src/UserWeb/Session/InSync.antt =====
-- When the tokens in the page's cells and those in the browser's storage are the same, and the handlers
-- of App.
use infinite_image_hosting.Prelude.{refl, ap, String, ◌≡◌, Option, none, some, get_or, arith}
use infinite_image_hosting.Async.Program.{set_state}
use infinite_image_hosting.Async.Rules.{Holds, Holds-set_state, Holds-try_catch, holds_rules}
use infinite_image_hosting.UserWeb.Rules.{Holds-call}
use infinite_image_hosting.UserWeb.Types.{
  User, ToastType, error as error_toast, AppView, BillingCycle, File, ImageItem, ImagePrivacy,
}
use infinite_image_hosting.UserWeb.Mapping.{Env}
use infinite_image_hosting.UserWeb.Http
use infinite_image_hosting.UserWeb.Http.{Request, Reply}
use infinite_image_hosting.UserWeb.Page.{Browser, Page, Handler, put_toast, show_toast, show_error}
use infinite_image_hosting.UserWeb.App.Effects.{
  load_plans, session_effect, ifpay_callback, sync_hash_route,
}
use infinite_image_hosting.UserWeb.App.Account.{
  signed_in, handle_login, handle_register, handle_verify_email, handle_resend_verification,
  handle_forgot_password, handle_reset_password, start_ifpay_oauth, handle_checkout,
  refresh_account, handle_logout,
}
use infinite_image_hosting.UserWeb.App.Images.{
  is_private, handle_upload_file, refresh_images, handle_delete_image, handle_toggle_privacy,
  handle_sign_image,
}
use infinite_image_hosting.UserWeb.App.Navigation.{
  navigate, on_upload_success, to_auth, to_landing, close_toast, open_docs, close_docs, leave_docs,
}

-- A reload (`boot`) would read back the tokens that the page holds.
pub record InSync (s : Page) : Type 0 where
  pub session : s.token ≡ get_or s.browser.stored_token ""
  pub ifpay : s.ifpay_token ≡ get_or s.browser.stored_ifpay ""

pub Holds-show_toast : (msg : String) (type : ToastType) → Holds InSync (show_toast msg type)
unfolding show_toast
Holds-show_toast msg type = Holds-set_state (put_toast msg type) (λ s h. ground arith)

pub Holds-show_error :
    (fallback : String) (m : Handler (Unit {0}))
    → Holds InSync m
    → Holds InSync (show_error fallback m)
Holds-show_error fallback m h = Holds-try_catch m _ h (λ x. Holds-show_toast _ error_toast)

-- A step that writes neither the tokens nor the storage.
pub Holds-frame :
    (f : Page → Page)
    → ((s : Page) → (f s).token ≡ s.token)
    → ((s : Page) → (f s).ifpay_token ≡ s.ifpay_token)
    → ((s : Page) → (f s).browser ≡ s.browser)
    → Holds InSync (set_state {Request = Request} {Reply = Reply} f)
Holds-frame f ht hi hb = Holds-set_state f (λ s h. record {
  session = cc (ht s, ap (λ (b : Browser). get_or b.stored_token "") (hb s), h.session);
  ifpay = cc (hi s, ap (λ (b : Browser). get_or b.stored_ifpay "") (hb s), h.ifpay);
})

pub Holds-signed_in :
    (token : String) (user : User)
    → Holds InSync (set_state {Request = Request} {Reply = Reply} (signed_in token user))
unfolding signed_in
Holds-signed_in token user = Holds-set_state _ (λ s h. record { session = refl; ifpay = h.ifpay })

pub ruleset sync_steps = (holds_rules, Holds-frame, Holds-show_toast, Holds-show_error)

pub Holds-load_plans : (env : Env) → Holds InSync (load_plans env)
unfolding load_plans
Holds-load_plans env = search (sync_steps, Holds-call Http.get_plans) depth 12

pub Holds-session_effect : (env : Env) (seen : Page) → Holds InSync (session_effect env seen)
unfolding session_effect
Holds-session_effect env seen =
    search
      (
        sync_steps,
        Holds-set_state,
        arith,
        Holds-call (Http.get_me seen.token),
        Holds-call (Http.list_images seen.token),
      )
      depth 12

pub Holds-ifpay_callback :
    (seen : Page) (c st : Option String) → Holds InSync (ifpay_callback seen c st)
unfolding ifpay_callback
Holds-ifpay_callback seen none st = search sync_steps
Holds-ifpay_callback seen (some c) st =
    search (sync_steps, Holds-set_state, arith, Holds-call (Http.ifpay_callback c (get_or st "")))
      depth 12

pub Holds-sync_hash_route : Holds InSync sync_hash_route
unfolding sync_hash_route
Holds-sync_hash_route = search (sync_steps, Holds-set_state, arith) depth 12

pub Holds-handle_login : (email password : String) → Holds InSync (handle_login email password)
unfolding handle_login
Holds-handle_login email password =
    search (sync_steps, Holds-signed_in, Holds-call (Http.login email password)) depth 12

pub Holds-handle_register :
    (email password nickname : String) → Holds InSync (handle_register email password nickname)
unfolding handle_register
Holds-handle_register email password nickname =
    search (sync_steps, Holds-call (Http.register email password nickname)) depth 12

pub Holds-handle_verify_email :
    (user_id c next_token : String) → Holds InSync (handle_verify_email user_id c next_token)
unfolding handle_verify_email
Holds-handle_verify_email user_id c next_token =
    search (sync_steps, Holds-signed_in, Holds-call (Http.verify_email user_id c)) depth 12

pub Holds-handle_resend_verification :
    (user_id : String) → Holds InSync (handle_resend_verification user_id)
unfolding handle_resend_verification
Holds-handle_resend_verification user_id =
    search (sync_steps, Holds-call (Http.resend_verification user_id)) depth 12

pub Holds-handle_forgot_password : (email : String) → Holds InSync (handle_forgot_password email)
unfolding handle_forgot_password
Holds-handle_forgot_password email =
    search (sync_steps, Holds-call (Http.forgot_password email)) depth 12

pub Holds-handle_reset_password :
    (email c new_password : String) → Holds InSync (handle_reset_password email c new_password)
unfolding handle_reset_password
Holds-handle_reset_password email c new_password =
    search (sync_steps, Holds-call (Http.reset_password email c new_password)) depth 12

pub Holds-start_ifpay_oauth : Holds InSync start_ifpay_oauth
unfolding start_ifpay_oauth
Holds-start_ifpay_oauth =
    search (sync_steps, Holds-set_state, arith, Holds-call Http.ifpay_start) depth 12

pub Holds-handle_checkout :
    (seen : Page) (plan_slug : String) (cycle : BillingCycle)
    → Holds InSync (handle_checkout seen plan_slug cycle)
unfolding handle_checkout
Holds-handle_checkout seen plan_slug cycle =
    search
      (
        sync_steps,
        Holds-start_ifpay_oauth,
        Holds-call (Http.checkout_ifpay plan_slug cycle seen.ifpay_token seen.token),
      )
      depth 12

pub Holds-refresh_account : (seen : Page) → Holds InSync (refresh_account seen)
unfolding refresh_account
Holds-refresh_account seen = search (sync_steps, Holds-call (Http.get_me seen.token)) depth 12

pub Holds-handle_logout : Holds InSync handle_logout
unfolding handle_logout
Holds-handle_logout = search (sync_steps, Holds-set_state, arith) depth 12

pub Holds-handle_upload_file :
    (env : Env) (seen : Page) (file : File) → Holds InSync (handle_upload_file env seen file)
unfolding handle_upload_file
Holds-handle_upload_file env seen file =
    search (sync_steps, Holds-call (Http.upload_image file seen.token)) depth 12

pub Holds-refresh_images : (env : Env) (seen : Page) → Holds InSync (refresh_images env seen)
unfolding refresh_images
Holds-refresh_images env seen =
    search (sync_steps, Holds-call (Http.list_images seen.token)) depth 12

pub Holds-handle_delete_image :
    (seen : Page) (public_id : String) → Holds InSync (handle_delete_image seen public_id)
unfolding handle_delete_image
Holds-handle_delete_image seen public_id =
    search (sync_steps, Holds-call (Http.delete_image public_id seen.token)) depth 12

pub Holds-handle_toggle_privacy :
    (env : Env) (seen : Page) (public_id : String) (next : ImagePrivacy)
    → Holds InSync (handle_toggle_privacy env seen public_id next)
unfolding handle_toggle_privacy
Holds-handle_toggle_privacy env seen public_id next =
    search (sync_steps, Holds-call (Http.patch_privacy public_id (is_private next) seen.token))
      depth 12

pub Holds-handle_sign_image :
    (seen : Page) (public_id : String) → Holds InSync (handle_sign_image seen public_id)
unfolding handle_sign_image
Holds-handle_sign_image seen public_id =
    search (sync_steps, Holds-call (Http.sign_image public_id seen.token)) depth 12

pub Holds-navigate : (seen : Page) (view : AppView) → Holds InSync (navigate seen view)
unfolding navigate
Holds-navigate seen view = search (sync_steps) depth 12

pub Holds-on_upload_success :
    (env : Env) (seen : Page) (img : ImageItem) → Holds InSync (on_upload_success env seen img)
unfolding on_upload_success
Holds-on_upload_success env seen img =
    search (sync_steps, Holds-navigate, Holds-refresh_images, Holds-refresh_account) depth 12

pub Holds-to_auth : Holds InSync to_auth
unfolding to_auth
Holds-to_auth = search (sync_steps) depth 12

pub Holds-to_landing : Holds InSync to_landing
unfolding to_landing
Holds-to_landing = search (sync_steps) depth 12

pub Holds-close_toast : Holds InSync close_toast
unfolding close_toast
Holds-close_toast = search (sync_steps) depth 12

pub Holds-open_docs : Holds InSync open_docs
unfolding open_docs
Holds-open_docs = search (sync_steps, Holds-set_state, arith) depth 12

pub Holds-close_docs : Holds InSync close_docs
unfolding close_docs
Holds-close_docs = search (sync_steps, Holds-set_state, arith) depth 12

pub Holds-leave_docs : (seen : Page) → Holds InSync (leave_docs seen)
unfolding leave_docs
Holds-leave_docs seen = search (sync_steps, Holds-set_state, arith) depth 12
