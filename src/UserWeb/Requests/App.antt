-- ===== src/UserWeb/Requests/App.antt =====
-- The requests of what App does for the console.
use infinite_image_hosting.Prelude.{String, ◌≡◌, Bool, true}
use infinite_image_hosting.Async.Within.{Stays}
use infinite_image_hosting.UserWeb.Types.{
  User, AppView, ImageItem, ImagePrivacy, BillingCycle, File, ToastType,
}
use infinite_image_hosting.UserWeb.Mapping.{Env}
use infinite_image_hosting.UserWeb.Http
use infinite_image_hosting.UserWeb.Page.{Page, show_toast}
use infinite_image_hosting.UserWeb.Requests.{Allowed, Free, steps, Stays-write, Stays-call}
use infinite_image_hosting.UserWeb.App.Account
use infinite_image_hosting.UserWeb.App.Images
use infinite_image_hosting.UserWeb.App.Navigation

module _ (user : User) (confirmed : Bool) where
  pub Stays-show_toast :
      (message : String) (type : ToastType)
      → Stays (Allowed user confirmed) Free (show_toast message type)
  unfolding show_toast
  Stays-show_toast message type = Stays-write _

  pub Stays-handle_resend_verification :
      (user_id : String)
      → Stays (Allowed user confirmed) Free (Account.handle_resend_verification user_id)
  unfolding Account.handle_resend_verification
  Stays-handle_resend_verification user_id = search (steps, Stays-show_toast) depth 16

  pub Stays-start_ifpay_oauth : Stays (Allowed user confirmed) Free (Account.start_ifpay_oauth)
  unfolding Account.start_ifpay_oauth
  Stays-start_ifpay_oauth = search (steps) depth 16

  pub Stays-handle_checkout :
      (seen : Page) (plan_slug : String) (cycle : BillingCycle)
      → Stays (Allowed user confirmed) Free (Account.handle_checkout seen plan_slug cycle)
  unfolding Account.handle_checkout
  Stays-handle_checkout seen plan_slug cycle =
      search (steps, Stays-show_toast, Stays-start_ifpay_oauth) depth 16

  pub Stays-refresh_account :
      (seen : Page) → Stays (Allowed user confirmed) Free (Account.refresh_account seen)
  unfolding Account.refresh_account
  Stays-refresh_account seen = search (steps) depth 16

  pub Stays-handle_logout : Stays (Allowed user confirmed) Free (Account.handle_logout)
  unfolding Account.handle_logout
  Stays-handle_logout = search (steps, Stays-show_toast) depth 16

  pub Stays-handle_sign_image :
      (seen : Page) (public_id : String)
      → Stays (Allowed user confirmed) Free (Images.handle_sign_image seen public_id)
  unfolding Images.handle_sign_image
  Stays-handle_sign_image seen public_id =
      search (steps, Stays-call (Http.sign_image public_id seen.token)) depth 16

  pub Stays-handle_delete_image :
      (seen : Page) (public_id : String)
      → confirmed ≡ true
      → Stays (Allowed user confirmed) Free (Images.handle_delete_image seen public_id)
  unfolding Images.handle_delete_image
  Stays-handle_delete_image seen public_id sure = search (steps, sure) depth 16

  pub Stays-handle_upload_file :
      (env : Env) (seen : Page) (file : File)
      → Stays (Allowed user confirmed) Free (Images.handle_upload_file env seen file)
  unfolding Images.handle_upload_file
  Stays-handle_upload_file env seen file = search (steps) depth 16

  pub Stays-refresh_images :
      (env : Env) (seen : Page)
      → Stays (Allowed user confirmed) Free (Images.refresh_images env seen)
  unfolding Images.refresh_images
  Stays-refresh_images env seen = search (steps) depth 16

  pub Stays-handle_toggle_privacy :
      (env : Env) (seen : Page) (public_id : String) (next_privacy : ImagePrivacy)
      → Stays
          (Allowed user confirmed)
          Free
          (Images.handle_toggle_privacy env seen public_id next_privacy)
  unfolding Images.handle_toggle_privacy
  Stays-handle_toggle_privacy env seen public_id next_privacy = search (steps) depth 16

  pub Stays-navigate :
      (seen : Page) (view : AppView)
      → Stays (Allowed user confirmed) Free (Navigation.navigate seen view)
  unfolding Navigation.navigate
  Stays-navigate seen view = search (steps, Stays-show_toast) depth 16

  pub Stays-close_toast : Stays (Allowed user confirmed) Free (Navigation.close_toast)
  unfolding Navigation.close_toast
  Stays-close_toast = search (steps) depth 16

  pub Stays-on_upload_success :
      (env : Env) (seen : Page) (img : ImageItem)
      → Stays (Allowed user confirmed) Free (Navigation.on_upload_success env seen img)
  unfolding Navigation.on_upload_success
  Stays-on_upload_success env seen img =
      search (steps, Stays-show_toast, Stays-navigate, Stays-refresh_images, Stays-refresh_account)
        depth 16
