-- ===== src/UserWeb/Session/Reload.antt =====
-- The tokens of the session under every interleaving of the page's handlers, and a reload of the page.
use infinite_image_hosting.Prelude.{refl, sym, String, ◌≡◌, []}
use infinite_image_hosting.Async.Loop.{World, Reach}
use infinite_image_hosting.Async.Safe.{SafeTo, Reach-IsSafe, IsSafe}
use infinite_image_hosting.Async.Rules.{Holds-run}
use infinite_image_hosting.UserWeb.Types.{User, AppView}
use infinite_image_hosting.UserWeb.Mapping.{Env}
use infinite_image_hosting.UserWeb.Http.{Request, Reply}
use infinite_image_hosting.UserWeb.Page.{Page, Running, Browser, boot}
use infinite_image_hosting.UserWeb.Events.{Effect, Visitor, Console, Event, effect, visitor, user}
use infinite_image_hosting.UserWeb.Session.InSync
use infinite_image_hosting.UserWeb.Session.InSync.{InSync}
use infinite_image_hosting.UserWeb.Session.Views.Auth
use infinite_image_hosting.UserWeb.Session.Views.Upload
use infinite_image_hosting.UserWeb.Session.Views.Gallery
use infinite_image_hosting.UserWeb.Session.Views.Pricing
use infinite_image_hosting.UserWeb.Session.Views.ApiKeys
use infinite_image_hosting.UserWeb.Session.Views.Backup
use infinite_image_hosting.UserWeb.Session.Views.Settings
use infinite_image_hosting.UserWeb.Session.Views.Docs

module _ (env : Env) (trim : String → String) where
  Effect-InSync :
      (s : Page) {p : Running} → Effect env trim s p → InSync s → SafeTo InSync p s InSync
  Effect-InSync s Effect.plans = Holds-run (InSync.Holds-load_plans env) s
  Effect-InSync s Effect.session = Holds-run (InSync.Holds-session_effect env s) s
  Effect-InSync s (Effect.returned oauth_code oauth_state) =
      Holds-run (InSync.Holds-ifpay_callback s oauth_code oauth_state) s
  Effect-InSync s Effect.hash_changed = Holds-run (InSync.Holds-sync_hash_route) s
  Effect-InSync s Effect.closed = Holds-run (InSync.Holds-close_toast) s
  Effect-InSync s (Effect.docs _) = Holds-run (Docs.Holds-docs_effect s) s
  Effect-InSync s (Effect.orders u _) = Holds-run (Pricing.Holds-orders_effect s) s
  Effect-InSync s (Effect.keys u _) = Holds-run (ApiKeys.Holds-load_keys s.token) s
  Effect-InSync s (Effect.profile u _) = Holds-run (Settings.Holds-sync_profile u) s

  Visitor-InSync :
      (s : Page) {p : Running} → Visitor env trim s p → InSync s → SafeTo InSync p s InSync
  Visitor-InSync s (Visitor.to_auth _) = Holds-run (InSync.Holds-to_auth) s
  Visitor-InSync s (Visitor.to_landing _) = Holds-run (InSync.Holds-to_landing) s
  Visitor-InSync s (Visitor.to_docs _) = Holds-run (InSync.Holds-open_docs) s
  Visitor-InSync s (Visitor.leave_docs _) = Holds-run (InSync.Holds-leave_docs s) s
  Visitor-InSync s (Visitor.close_docs _) = Holds-run (InSync.Holds-close_docs) s
  Visitor-InSync s (Visitor.panel p _) = Holds-run (Docs.Holds-open_reference_panel p) s
  Visitor-InSync s (Visitor.mode m _) = Holds-run (Auth.Holds-switch_mode m) s
  Visitor-InSync s (Visitor.login email password _) =
      Holds-run (Auth.Holds-submit_login email password) s
  Visitor-InSync s (Visitor.register email password nickname _) =
      Holds-run (Auth.Holds-submit_register email password nickname) s
  Visitor-InSync s (Visitor.verify typed _) = Holds-run (Auth.Holds-submit_verify s typed) s
  Visitor-InSync s (Visitor.resend _) = Holds-run (Auth.Holds-submit_resend s) s
  Visitor-InSync s (Visitor.forgot email _) = Holds-run (Auth.Holds-submit_forgot email) s
  Visitor-InSync s (Visitor.reset email typed password _) =
      Holds-run (Auth.Holds-submit_reset s email typed password) s
  Visitor-InSync s (Visitor.ifpay _) = Holds-run (Auth.Holds-submit_ifpay) s

  Console-InSync :
      (s : Page) (u : User) {v : AppView} {p : Running}
      → Console env trim s u v p
      → InSync s
      → SafeTo InSync p s InSync
  Console-InSync s u Console.logout = Holds-run (InSync.Holds-handle_logout) s
  Console-InSync s u (Console.navigate next) = Holds-run (InSync.Holds-navigate s next) s
  Console-InSync s u Console.drag_over = Holds-run (Upload.Holds-drag_over) s
  Console-InSync s u Console.drag_leave = Holds-run (Upload.Holds-drag_leave) s
  Console-InSync s u (Console.drop files) = Holds-run (Upload.Holds-drop_files env s files) s
  Console-InSync s u (Console.pick file) = Holds-run (Upload.Holds-upload env s file) s
  Console-InSync s u Console.resend_upload = Holds-run (Upload.Holds-resend_verification u.id) s
  Console-InSync s u Console.cycle = Holds-run (Gallery.Holds-cycle_privacy_filter) s
  Console-InSync s u (Console.query q) = Holds-run (Gallery.Holds-set_query q) s
  Console-InSync s u (Console.select img) = Holds-run (Gallery.Holds-select_image img) s
  Console-InSync s u Console.back = Holds-run (Gallery.Holds-deselect_image) s
  Console-InSync s u (Console.copy link type) = Holds-run (Gallery.Holds-copy_link link type) s
  Console-InSync s u (Console.delete confirmed img _) =
      Holds-run (Gallery.Holds-delete_image s confirmed img.id) s
  Console-InSync s u (Console.toggle img _) = Holds-run (Gallery.Holds-toggle_privacy env s img) s
  Console-InSync s u (Console.sign img _) = Holds-run (Gallery.Holds-sign_image s img.id) s
  Console-InSync s u Console.connect = Holds-run (InSync.Holds-start_ifpay_oauth) s
  Console-InSync s u Console.refresh = Holds-run (Pricing.Holds-refresh_orders s.token) s
  Console-InSync s u (Console.buy plan_slug c) = Holds-run (Pricing.Holds-checkout s plan_slug c) s
  Console-InSync s u Console.create = Holds-run (ApiKeys.Holds-create_key u s.token) s
  Console-InSync s u (Console.revoke key_id) = Holds-run (ApiKeys.Holds-revoke_key s.token key_id) s
  Console-InSync s u Console.resend_api = Holds-run (ApiKeys.Holds-resend_verification u.id) s
  Console-InSync s u Console.download = Holds-run (Backup.Holds-export_backup s.token) s
  Console-InSync s u (Console.restore file) = Holds-run (Backup.Holds-import_backup s.token file) s
  Console-InSync s u (Console.alias text) = Holds-run (Settings.Holds-set_alias text) s
  Console-InSync s u (Console.reason text) = Holds-run (Settings.Holds-set_destroy_reason text) s
  Console-InSync s u Console.remove = Holds-run (Settings.Holds-remove_avatar) s
  Console-InSync s u (Console.avatar file) = Holds-run (Settings.Holds-handle_avatar_file file) s
  Console-InSync s u Console.save =
      Holds-run (Settings.Holds-save_profile trim s.token s.settings) s
  Console-InSync s u (Console.destroy confirmed) =
      Holds-run (Settings.Holds-request_destroy trim s.token s.settings confirmed) s
  Console-InSync s u Console.resend_settings = Holds-run (Settings.Holds-resend_verification u.id) s

  Event-InSync : (s : Page) (p : Running) → Event env trim s p → InSync s → SafeTo InSync p s InSync
  Event-InSync s p (effect e) = Effect-InSync s e
  Event-InSync s p (visitor e) = Visitor-InSync s e
  Event-InSync s p (user u v shown e) = Console-InSync s u e

  abbrev pub start : Browser → World Page Request Reply
  start b = record { state = boot b; waiting = [] }

  start-IsSafe : (b : Browser) → IsSafe InSync (start b)
  unfolding boot
  start-IsSafe b = record { holds = record { session = refl; ifpay = refl }; waiting_keep = tt }

  -- Whatever the user does, whatever the server answers and in whatever order the answers come, a
  -- reload of the page reads back from the browser the session token and the IF-Pay token that the
  -- page holds.
  pub reload_keeps_session :
      (b : Browser) {w : World Page Request Reply}
      → Reach (Event env trim) (start b) w
      → ((boot w.state.browser).token ≡ w.state.token)
        × ((boot w.state.browser).ifpay_token ≡ w.state.ifpay_token)
  unfolding boot
  reload_keeps_session b {w} r =
      let safe = Reach-IsSafe InSync (Event env trim) Event-InSync (start-IsSafe b) r in
      (sym safe.holds.session, sym safe.holds.ifpay)
