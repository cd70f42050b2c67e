-- ===== src/UserWeb/Session/Views/ApiKeys.antt =====
-- The handlers of ApiView and the tokens of the session.
use infinite_image_hosting.Prelude.{String}
use infinite_image_hosting.Async.Rules.{Holds}
use infinite_image_hosting.UserWeb.Rules.{Holds-call}
use infinite_image_hosting.UserWeb.Types.{User}
use infinite_image_hosting.UserWeb.Http
use infinite_image_hosting.UserWeb.Page.{ApiState}
use infinite_image_hosting.UserWeb.Views.ApiKeys
use infinite_image_hosting.UserWeb.Session.InSync.{InSync, sync_steps}
use infinite_image_hosting.UserWeb.Session.Views.Upload.{Holds-on_resend_verification}

pub Holds-set_api : (f : ApiState → ApiState) → Holds InSync (ApiKeys.set_api f)
unfolding ApiKeys.set_api
Holds-set_api f = search sync_steps

pub Holds-load_keys : (token : String) → Holds InSync (ApiKeys.load_keys token)
unfolding ApiKeys.load_keys
Holds-load_keys token =
    search (sync_steps, Holds-set_api, Holds-call (Http.list_api_keys token)) depth 14

pub Holds-create_key : (user : User) (token : String) → Holds InSync (ApiKeys.create_key user token)
unfolding ApiKeys.create_key
Holds-create_key user token =
    search (sync_steps, Holds-set_api, Holds-load_keys, Holds-call (Http.create_api_key token))
      depth 14

pub Holds-revoke_key : (token key_id : String) → Holds InSync (ApiKeys.revoke_key token key_id)
unfolding ApiKeys.revoke_key
Holds-revoke_key token key_id =
    search (sync_steps, Holds-load_keys, Holds-call (Http.revoke_api_key key_id token)) depth 14

pub Holds-resend_verification :
    (user_id : String) → Holds InSync (ApiKeys.resend_verification user_id)
unfolding ApiKeys.resend_verification
Holds-resend_verification user_id =
    search (sync_steps, Holds-set_api, Holds-on_resend_verification) depth 14
