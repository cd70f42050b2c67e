-- ===== src/UserWeb/Http/Wire/Credentials.antt =====
-- Which calls carry a session, and how.
use infinite_image_hosting.Prelude.{
  if_some, String, ◌<>◌, ◌≡◌, true, truthy, Option, none, some, arith,
}
use infinite_image_hosting.UserWeb.Http.{
  Request, get_me, list_images, checkout_ifpay, upload_image, delete_image, patch_privacy,
  sign_image, list_orders, list_api_keys, create_api_key, revoke_api_key, export_backup,
  import_backup, patch_profile, request_destroy,
}
use infinite_image_hosting.UserWeb.Http.Wire.{wire, HttpRequest}

-- The session that a call is made with.
abbrev pub session_of : Request → Option String
session_of (get_me token) = some token
session_of (list_images token) = some token
session_of (checkout_ifpay _ _ _ token) = some token
session_of (upload_image _ token) = some token
session_of (delete_image _ token) = some token
session_of (patch_privacy _ _ token) = some token
session_of (sign_image _ token) = some token
session_of (list_orders token) = some token
session_of (list_api_keys token) = some token
session_of (create_api_key token) = some token
session_of (revoke_api_key _ token) = some token
session_of (export_backup token) = some token
session_of (import_backup _ token) = some token
session_of (patch_profile _ _ token) = some token
session_of (request_destroy _ token) = some token
session_of _ = none

-- A call that goes over HTTP carries a bearer token exactly where it is made with a session: if the
-- session's token is not empty, the call carries that token, and a call without a session none.
pub wire_authorization :
    (encode : String → String) (r : Request) (h : HttpRequest)
    → wire encode r ≡ some h
    → if_some (session_of r) true truthy ≡ true
    → h.authorization ≡ if_some (session_of r) none (λ token. some ("Bearer " <> token))
unfolding wire
wire_authorization encode (get_me t) h sent live = ground arith
wire_authorization encode _ h sent live = ground arith
