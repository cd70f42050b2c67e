-- ===== src/AdminWeb/Views/Platform.antt =====
-- OpenPlatformView: the public interface, and the integration of IF-Pay.
use infinite_image_hosting.Prelude.{
  ℕ, zero, suc, ◌++◌, length, true, false, if◌then◌else◌, none, some, if_some, List, [], ◌∷◌,
}
use infinite_image_hosting.Async.Program.{message_or, Thrown, pure, set_state, get_state}
use infinite_image_hosting.AdminWeb.Types.{IfpayIntegrationConfig}
use infinite_image_hosting.AdminWeb.Calls
use infinite_image_hosting.AdminWeb.Text.{TextOps}
use infinite_image_hosting.AdminWeb.Page.{
  detach, ◌>>=◌, ◌>>◌, caught, ensured, AdminPage, Handler, set_views, good, bad,
}
use infinite_image_hosting.AdminWeb.Session.{admin_fetch}
use infinite_image_hosting.AdminWeb.Replies.{IfpayForm}
use infinite_image_hosting.AdminWeb.Cells.{PlatformState, Joined}

abbrev set_platform : (mount : ℕ) → (PlatformState → PlatformState) → Handler (Unit {0})
set_platform mount f = set_views mount (λ v. record v { platform = f v.platform })

-- `applyIntegration`: the secrets are emptied.
unfoldable pub apply_integration : IfpayIntegrationConfig → PlatformState → PlatformState
apply_integration value c = record c {
  integration = some value;
  form = record {
    ifpay_base_url = value.ifpay_base_url;
    ifpay_partner_app_id = value.ifpay_partner_app_id;
    ifpay_client_id = value.ifpay_client_id;
    ifpay_redirect_uri = value.ifpay_redirect_uri;
    ifpay_client_secret = "";
    ifpay_private_key_pem = "";
    ifpay_public_key_pem = "";
    ifpay_webhook_public_key_pem = "";
  };
}

-- The part that the `id`-th `Promise.all` keeps.
abbrev change_at : ℕ → (Joined → Joined) → List Joined → List Joined
change_at id f [] = []
change_at zero f (j ∷ js) = f j ∷ js
change_at (suc id) f (j ∷ js) = j ∷ change_at id f js

abbrev set_join : (id : ℕ) → (Joined → Joined) → Handler (Unit {0})
set_join id f = set_state (λ s. record s { joins = change_at id f s.joins })

abbrev join_at : ℕ → List Joined → Joined
join_at id [] = record { api_part = none; integration_part = none; failed = true }
join_at zero (j ∷ js) = j
join_at (suc id) (j ∷ js) = join_at id js

-- `.then(([apiData, integrationData]) => …)`: it runs when both calls have answered.
abbrev settle : (mount id : ℕ) → Handler (Unit {0})
settle mount id = do
  s ← get_state
  if_some (join_at id s.joins).api_part (pure tt) (λ api_value.
      if_some (join_at id s.joins).integration_part (pure tt) (λ value.
        set_platform mount
          (λ c. record (apply_integration value c) { api_config = some api_value; notice = none })))

-- `.catch(…)`: it runs at the first call that fails.
abbrev reject : (mount id : ℕ) → Thrown → Handler (Unit {0})
reject mount id x = do
  s ← get_state
  if (join_at id s.joins).failed then pure tt else (do
    set_join id (λ j. record j { failed = true })
    set_platform mount (λ c. record c {
      api_config = none;
      integration = none;
      notice = bad (message_or "开放平台配置读取失败，请检查 API 服务。" x);
    }))

abbrev read_api : (mount id : ℕ) → Handler (Unit {0})
read_api mount id =
    caught
      (do
        value ← admin_fetch Calls.get_api_config
        set_join id (λ j. record j { api_part = some value })
        settle mount id)
      (λ x. reject mount id x)

abbrev read_integration : (mount id : ℕ) → Handler (Unit {0})
read_integration mount id =
    caught
      (do
        value ← admin_fetch Calls.get_ifpay
        set_join id (λ j. record j { integration_part = some value })
        settle mount id)
      (λ x. reject mount id x)

-- Both calls are made at once.
unfoldable pub load_config : (seen : AdminPage) → Handler (Unit {0})
unfolding set_views admin_fetch apply_integration
load_config seen = do
  s ← get_state
  set_state (λ t. record t {
    joins = t.joins ++ (record { api_part = none; integration_part = none; failed = false } ∷ []);
  })
  detach (read_api seen.view_run (length s.joins))
  detach (read_integration seen.view_run (length s.joins))

-- `setField`, with the change of the one field
unfoldable pub set_field : (seen : AdminPage) → (IfpayForm → IfpayForm) → Handler (Unit {0})
unfolding set_views
set_field seen f = set_platform seen.view_run (λ c. record c { form = f c.form })

module _ (ops : TextOps) where
  unfoldable pub integration_payload : IfpayForm → IfpayForm
  integration_payload form = record {
    ifpay_base_url = ops.trim form.ifpay_base_url;
    ifpay_partner_app_id = ops.trim form.ifpay_partner_app_id;
    ifpay_client_id = ops.trim form.ifpay_client_id;
    ifpay_redirect_uri = ops.trim form.ifpay_redirect_uri;
    ifpay_client_secret = ops.trim form.ifpay_client_secret;
    ifpay_private_key_pem = ops.trim form.ifpay_private_key_pem;
    ifpay_public_key_pem = ops.trim form.ifpay_public_key_pem;
    ifpay_webhook_public_key_pem = ops.trim form.ifpay_webhook_public_key_pem;
  }

  unfoldable pub save_integration : (seen : AdminPage) → Handler (Unit {0})
  unfolding set_views admin_fetch apply_integration integration_payload
  save_integration seen = do
    set_platform seen.view_run (λ c. record c { saving = true })
    ensured
        (caught
          (do
            value ← admin_fetch (Calls.patch_ifpay (integration_payload seen.views.platform.form))
            set_platform seen.view_run (λ c. record (apply_integration value c) {
              notice = good "IF-Pay 支付与 OAuth 配置已保存，前台授权、下单、Webhook 会立即使用新配置。";
            }))
          (λ x.
            set_platform seen.view_run
              (λ c. record c { notice = bad (message_or "保存失败，请检查后台服务。" x) })))
        (set_platform seen.view_run (λ c. record c { saving = false }))
