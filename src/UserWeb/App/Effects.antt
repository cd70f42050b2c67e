-- ===== src/UserWeb/App/Effects.antt =====
-- The effects of App: the plans, the session, the return from IF-Pay and the hash route.
use infinite_image_hosting.Prelude.{
  ◌+◌, String, not, ◌&&◌, ◌==◌, str_eq, if◌then◌else◌, truthy, Option, none, some, get_or, [], map,
}
use infinite_image_hosting.Async.Program.{
  message_or, pure, set_state, fetch, try_catch, ◌>>=◌, ◌>>◌,
}
use infinite_image_hosting.UserWeb.Types.{
  View, landing, docs, auth, app, dashboard, pricing, success,
}
use infinite_image_hosting.UserWeb.Mapping.{
  Env, ends_with, replace_end, map_user, map_image, map_plan,
}
use infinite_image_hosting.UserWeb.Http
use infinite_image_hosting.UserWeb.Page.{Page, Handler, no_usage, show_toast, show_error}

-- `view === "landing" || view === "auth" ? "dashboard" : view`
abbrev enter_console : View → View
enter_console landing = app dashboard
enter_console auth = app dashboard
enter_console v = v

abbrev callback_path : String
callback_path = "/oauth/ifpay/callback"

-- the effect for the page that IF-Pay redirects to: `code` and `state` are the query's parameters
unfoldable pub ifpay_callback : (seen : Page) → Option String → Option String → Handler (Unit {0})
unfolding ends_with replace_end
ifpay_callback seen none oauth_state = pure tt
ifpay_callback seen (some oauth_code) oauth_state =
    if not (ends_with callback_path seen.browser.pathname && truthy oauth_code)
    then pure tt
    else show_error "IF-Pay 授权失败" (do
      session ← fetch (Http.ifpay_callback oauth_code (get_or oauth_state ""))
      set_state (λ s. record s {
        browser = record s.browser {
          stored_token = some session.token;
          stored_ifpay = some session.ifpay_access_token;
          pathname = replace_end callback_path "/" s.browser.pathname;
          hash = "";
        };
        token = session.token;
        ifpay_token = session.ifpay_access_token;
        user = some (map_user session.user);
        current_view = app pricing;
      })
      show_toast "IF-Pay 授权完成，可以继续订购资源包" success)

unfoldable pub sync_hash_route : Handler (Unit {0})
sync_hash_route =
    set_state (λ s. if str_eq s.browser.hash "#/docs" then record s { current_view = docs } else s)

module _ (env : Env) where
  -- the effect that loads the plans
  unfoldable pub load_plans : Handler (Unit {0})
  load_plans =
      try_catch
        (do
          rows ← fetch Http.get_plans
          set_state (λ s. record s { plans = map (map_plan env) rows; plans_error = "" }))
        (λ x. set_state (λ s. record s { plans = []; plans_error = message_or "套餐配置读取失败" x }))

  -- the effect on `token`: `run` is the number of this run. The requests of
  -- `Promise.all` are sent one after the other; either one's failure goes to `catch`, which does not
  -- look at `cancelled`.
  unfoldable pub session_effect : (seen : Page) → Handler (Unit {0})
  session_effect seen = do
    let run = seen.session_run + 1
    set_state (λ s. record s { session_run = run })
    if not (truthy seen.token)
        then pure tt
        else try_catch
            (do
              me ← fetch (Http.get_me seen.token)
              image_list ← fetch (Http.list_images seen.token)
              set_state (λ s.
                  if s.session_run == run
                  then record s {
                    user = some (map_user me.user);
                    usage = get_or me.usage no_usage;
                    images = map (map_image env) image_list;
                    current_view = enter_console s.current_view;
                  }
                  else s))
            (λ _.
              set_state
                (λ s. record s { browser = record s.browser { stored_token = none }; token = "" }))
