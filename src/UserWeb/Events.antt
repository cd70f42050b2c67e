-- ===== src/UserWeb/Events.antt =====
-- What the page may start in a given state: the handlers of the view that is on the screen, and the
-- effects. The rendered page is the closure's `seen`. A dialog's answer, a typed text and a picked
-- file are arguments.
use infinite_image_hosting.Prelude.{String, ◌≡◌, Bool, Option, List}
use infinite_image_hosting.Async.Program.{run}
use infinite_image_hosting.UserWeb.Types.{
  User, AppView, upload, gallery, pricing, api, backup, settings, ImageItem, File, BillingCycle,
  DocsPanel,
}
use infinite_image_hosting.UserWeb.Mapping.{Env}
use infinite_image_hosting.UserWeb.Page.{Page, Running, AuthMode}
use infinite_image_hosting.UserWeb.Screen.{
  screen, docs_screen, auth_screen, landing_screen, console,
}
use infinite_image_hosting.UserWeb.App.Effects
use infinite_image_hosting.UserWeb.App.Account
use infinite_image_hosting.UserWeb.App.Navigation
use infinite_image_hosting.UserWeb.Views.Auth
use infinite_image_hosting.UserWeb.Views.Upload
use infinite_image_hosting.UserWeb.Views.Gallery
use infinite_image_hosting.UserWeb.Views.Gallery.{LinkFormat}
use infinite_image_hosting.UserWeb.Views.Pricing
use infinite_image_hosting.UserWeb.Views.ApiKeys
use infinite_image_hosting.UserWeb.Views.Backup
use infinite_image_hosting.UserWeb.Views.Settings
use infinite_image_hosting.UserWeb.Views.Docs

module _ (env : Env) (trim : String → String) where
  -- Effects run whatever is on the screen; those of a view run while it is mounted.
  pub data Effect (s : Page) : Running → Type 0 where
    plans : Effect s (run (Effects.load_plans env))
    session : Effect s (run (Effects.session_effect env s))
    returned :
        (oauth_code oauth_state : Option String)
        → Effect s (run (Effects.ifpay_callback s oauth_code oauth_state))
    hash_changed : Effect s (run Effects.sync_hash_route)
    closed : Effect s (run Navigation.close_toast)
    docs : screen s ≡ docs_screen → Effect s (run (Docs.docs_effect s))
    orders : (u : User) → screen s ≡ console u pricing → Effect s (run (Pricing.orders_effect s))
    keys : (u : User) → screen s ≡ console u api → Effect s (run (ApiKeys.load_keys s.token))
    profile : (u : User) → screen s ≡ console u settings → Effect s (run (Settings.sync_profile u))

  -- What a visitor can do who is not signed in, and in the documents.
  pub data Visitor (s : Page) : Running → Type 0 where
    to_auth : screen s ≡ landing_screen → Visitor s (run Navigation.to_auth)
    to_landing : screen s ≡ auth_screen → Visitor s (run Navigation.to_landing)
    to_docs : screen s ≡ landing_screen → Visitor s (run Navigation.open_docs)
    leave_docs : screen s ≡ docs_screen → Visitor s (run (Navigation.leave_docs s))
    close_docs : screen s ≡ docs_screen → Visitor s (run Navigation.close_docs)
    panel : (p : DocsPanel) → screen s ≡ docs_screen → Visitor s (run (Docs.open_reference_panel p))
    mode : (m : AuthMode) → screen s ≡ auth_screen → Visitor s (run (Auth.switch_mode m))
    login :
        (email password : String)
        → screen s ≡ auth_screen
        → Visitor s (run (Auth.submit_login email password))
    register :
        (email password nickname : String)
        → screen s ≡ auth_screen
        → Visitor s (run (Auth.submit_register email password nickname))
    verify :
        (typed : String) → screen s ≡ auth_screen → Visitor s (run (Auth.submit_verify s typed))
    resend : screen s ≡ auth_screen → Visitor s (run (Auth.submit_resend s))
    forgot : (email : String) → screen s ≡ auth_screen → Visitor s (run (Auth.submit_forgot email))
    reset :
        (email typed password : String)
        → screen s ≡ auth_screen
        → Visitor s (run (Auth.submit_reset s email typed password))
    ifpay : screen s ≡ auth_screen → Visitor s (run Auth.submit_ifpay)

  -- What a signed-in user can do: the layout's buttons, and the view's own.
  pub data Console (s : Page) (u : User) : AppView → Running → Type 0 where
    logout : {v : AppView} → Console s u v (run Account.handle_logout)
    navigate : {v : AppView} (next : AppView) → Console s u v (run (Navigation.navigate s next))
    drag_over : Console s u upload (run Upload.drag_over)
    drag_leave : Console s u upload (run Upload.drag_leave)
    drop : (files : List File) → Console s u upload (run (Upload.drop_files env s files))
    pick : (file : Option File) → Console s u upload (run (Upload.upload env s file))
    resend_upload : Console s u upload (run (Upload.resend_verification u.id))
    cycle : Console s u gallery (run Gallery.cycle_privacy_filter)
    query : (q : String) → Console s u gallery (run (Gallery.set_query q))
    select : (img : ImageItem) → Console s u gallery (run (Gallery.select_image img))
    back : Console s u gallery (run Gallery.deselect_image)
    copy :
        (link : String) (type : LinkFormat)
        → Console s u gallery (run (Gallery.copy_link link type))
    delete :
        (confirmed : Bool) (img : ImageItem)
        → s.gallery.selected ≡ Option.some img
        → Console s u gallery (run (Gallery.delete_image s confirmed img.id))
    toggle :
        (img : ImageItem)
        → s.gallery.selected ≡ Option.some img
        → Console s u gallery (run (Gallery.toggle_privacy env s img))
    sign :
        (img : ImageItem)
        → s.gallery.selected ≡ Option.some img
        → Console s u gallery (run (Gallery.sign_image s img.id))
    connect : Console s u pricing (run Account.start_ifpay_oauth)
    refresh : Console s u pricing (run (Pricing.refresh_orders s.token))
    buy :
        (plan_slug : String) (c : BillingCycle)
        → Console s u pricing (run (Pricing.checkout s plan_slug c))
    create : Console s u api (run (ApiKeys.create_key u s.token))
    revoke : (key_id : String) → Console s u api (run (ApiKeys.revoke_key s.token key_id))
    resend_api : Console s u api (run (ApiKeys.resend_verification u.id))
    download : Console s u backup (run (Backup.export_backup s.token))
    restore : (file : Option File) → Console s u backup (run (Backup.import_backup s.token file))
    alias : (text : String) → Console s u settings (run (Settings.set_alias text))
    reason : (text : String) → Console s u settings (run (Settings.set_destroy_reason text))
    remove : Console s u settings (run Settings.remove_avatar)
    avatar : (file : Option File) → Console s u settings (run (Settings.handle_avatar_file file))
    save : Console s u settings (run (Settings.save_profile trim s.token s.settings))
    destroy :
        (confirmed : Bool)
        → Console s u settings (run (Settings.request_destroy trim s.token s.settings confirmed))
    resend_settings : Console s u settings (run (Settings.resend_verification u.id))

  pub data Event (s : Page) (p : Running) : Type 0 where
    effect : Effect s p → Event s p
    visitor : Visitor s p → Event s p
    user : (u : User) (v : AppView) → screen s ≡ console u v → Console s u v p → Event s p
