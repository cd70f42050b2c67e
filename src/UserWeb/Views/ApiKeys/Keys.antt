-- ===== src/UserWeb/Views/ApiKeys/Keys.antt =====
-- Creating an API key.
use infinite_image_hosting.Prelude.{if◌then◌else◌, String, ◌≡◌, true, truthy, arith}
use infinite_image_hosting.Async.Program.{Outcome, ok, fail, run}
use infinite_image_hosting.Async.Exec.{exec}
use infinite_image_hosting.UserWeb.Types.{User}
use infinite_image_hosting.UserWeb.Http
use infinite_image_hosting.UserWeb.Http.{Request, Reply}
use infinite_image_hosting.UserWeb.Page.{Page, show_toast}
use infinite_image_hosting.UserWeb.Views.ApiKeys.{create_key, load_keys, set_api}

-- If nothing else happens meanwhile and the session token is not empty, creating a key shows a new
-- secret exactly where the user's mail address is verified and the server makes the key: then the secret is the server's, and the list
-- of keys is the server's if it can be read again. In all other cases with
-- such a token the secret and the list stay.
pub create_key_shows :
    (server : (r : Request) → Outcome (Reply r)) (s : Page) (u : User) (token : String)
    → truthy token ≡ true
    → let after = exec server (λ t. t) (run (create_key u token)) s in
      (after.api.latest_secret ≡ (
        if u.email_verified
        then elim (server (Http.create_api_key token)) [
          | ok secret ↦ secret
          | fail x ↦ s.api.latest_secret
        ]
        else s.api.latest_secret))
      × (after.api.keys ≡ (
          if u.email_verified
          then elim (server (Http.create_api_key token)) [
            | ok secret ↦ elim (server (Http.list_api_keys token)) [
              | ok keys ↦ keys
              | fail x ↦ s.api.keys
            ]
            | fail x ↦ s.api.keys
          ]
          else s.api.keys))
unfolding create_key load_keys set_api show_toast
create_key_shows server s u token live = (ground arith, ground arith)
