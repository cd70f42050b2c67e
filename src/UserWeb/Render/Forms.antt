-- ===== src/UserWeb/Render/Forms.antt =====
-- What the forms of the sign-in view send, from the fields on the screen to the body of the request.
use infinite_image_hosting.Prelude.{
  String, ◌≡◌, refl, false, if◌then◌else◌, truthy, Option, none, some, if_some, List, [], ◌∷◌, ◌++◌,
  map, arith,
}
use infinite_image_hosting.Async.Program.{call, run}
use mathlib.Core.List.{append-nil}
use infinite_image_hosting.Async.Loop.{run_sync}
use infinite_image_hosting.UserWeb.Types.{ToastState, ToastType, success, error, info}
use infinite_image_hosting.UserWeb.Http.{Request}
use infinite_image_hosting.UserWeb.Http.Wire.{wire, HttpRequest, Field, text, json, post}
use infinite_image_hosting.UserWeb.Page.{
  Page, Running, AuthMode, Notice, login, register, verify, forgot, reset,
}
use infinite_image_hosting.UserWeb.App.Navigation.{close_toast}
use infinite_image_hosting.UserWeb.App.Account.{
  handle_login, handle_register, handle_verify_email, handle_forgot_password, handle_reset_password,
}
use infinite_image_hosting.UserWeb.Views.Auth.{
  submit, submit_login, submit_register, submit_verify, submit_forgot, submit_reset, set_auth,
}
use infinite_image_hosting.UserWeb.Html.{
  Element, label, button, submit_button, toast_icon, gather, gather-append,
}
use infinite_image_hosting.UserWeb.Render.Layout.{toast_view}
use infinite_image_hosting.UserWeb.Render.Auth.{auth_view, mode_form, mode_tabs}
use infinite_image_hosting.UserWeb.Render.Screens.{auth_page}

-- The requests that are under way.

abbrev pub under_way : List Running → List Request
under_way [] = []
under_way (call r k ∷ ps) = r ∷ under_way ps
under_way (p ∷ ps) = under_way ps

-- What leaves the browser when the form of an element is submitted in the state `s` with the values
-- `form` in its fields; a button that is disabled submits nothing.
abbrev pub posts :
    (encode : String → String)
    → (s : Page) → (form : String → String) → Element
    → List (Option HttpRequest)
posts encode s form (submit_button caption disabled p) =
    if disabled then [] else map (wire encode) (under_way (run_sync (p form) s).1)
posts encode s form _ = []

-- A POST without a bearer.
abbrev pub posting : (path : String) → List (String × Field) → List (Option HttpRequest)
posting path fields =
    some (record {
      method = post;
      path = path;
      body = json fields;
      content_type = some "Content-Type: application/json";
      authorization = none;
    })
    ∷ []

-- What each mode's form is for.
abbrev pub asked_for : Page → (form : String → String) → AuthMode → List (Option HttpRequest)
asked_for seen form login =
    posting "/auth/login"
      (("email", text (form "email")) ∷ ("password", text (form "password")) ∷ [])
asked_for seen form register = posting "/auth/register" (
    ("email", text (form "email"))
    ∷ ("password", text (form "password"))
    ∷ ("nickname", text (form "nickname"))
    ∷ [])
asked_for seen form verify = if_some seen.auth.pending [] (λ pending.
    posting "/auth/verify-email"
      (("user_id", text pending.user_id) ∷ ("code", text (form "code")) ∷ []))
asked_for seen form forgot = posting "/auth/forgot-password" (("email", text (form "email")) ∷ [])
asked_for seen form reset =
    let typed = form "email" in
    posting "/auth/reset-password" (
      (
        "email",
        text (
            if_some seen.auth.reset_pending typed (λ r. if truthy r.email then r.email else typed)),
      )
      ∷ ("code", text (form "code"))
      ∷ ("new_password", text (form "password"))
      ∷ [])

module _ (encode : String → String) (seen s : Page) (form : String → String) where
  form_posts :
      (mode : AuthMode)
      → seen.auth.submitting ≡ false
      → gather (posts encode s form) (mode_form seen mode) ≡ asked_for seen form mode
  unfolding mode_form submit submit_login submit_register submit_verify submit_forgot submit_reset
      handle_login handle_register handle_verify_email handle_forgot_password handle_reset_password
      set_auth run_sync wire
  form_posts login idle = ground arith
  form_posts register idle = ground arith
  form_posts verify idle = ground arith
  form_posts forgot idle = ground arith
  form_posts reset idle = ground arith

  notice_posts :
      (o : Option Notice)
      → gather (posts encode s form) (if_some o [] (λ n. label n.text ∷ [])) ≡ []
  notice_posts none = refl
  notice_posts (some n) = refl

  tabs_post : (mode : AuthMode) → gather (posts encode s form) (mode_tabs mode) ≡ []
  unfolding mode_tabs
  tabs_post login = refl
  tabs_post register = refl
  tabs_post verify = refl
  tabs_post forgot = refl
  tabs_post reset = refl

  toast_posts : (toast : Option ToastState) → gather (posts encode s form) (toast_view toast) ≡ []
  unfolding toast_view toast_icon
  toast_posts none = refl
  toast_posts (some t) = kind t.type
    where
      kind :
          (type : ToastType)
          → gather
              (posts encode s form)
              (toast_icon type ++ (label t.msg ∷ button "X" false (run close_toast) ∷ []))
            ≡ []
      kind success = refl
      kind error = refl
      kind info = refl

  -- On the sign-in view, when no form is being submitted, submitting the form on the screen sends one
  -- request without a bearer: to sign in, with the e-mail address and the password typed; to register,
  -- with the nickname too; to verify, with the code typed, for the user who has just registered, and
  -- nothing if there is none; to have a code mailed, with the address; and to set a new password, with
  -- the address that the code was mailed to, or the typed one without it, the code and the password.
  pub auth_form_posts :
      seen.auth.submitting ≡ false
      → gather (posts encode s form) (auth_page seen) ≡ asked_for seen form seen.auth.mode
  unfolding auth_page auth_view
  auth_form_posts idle =
      rw
        (
          gather-append (posts encode s form) (toast_view seen.toast) (auth_view seen),
          toast_posts seen.toast,
          gather-append (posts encode s form) (if_some seen.auth.notice [] (λ n. label n.text ∷ []))
              _,
          notice_posts seen.auth.notice,
          gather-append (posts encode s form) (mode_tabs seen.auth.mode) _,
          tabs_post seen.auth.mode,
          gather-append (posts encode s form) (mode_form seen seen.auth.mode) _,
          form_posts seen.auth.mode idle,
        )
        (append-nil _)
