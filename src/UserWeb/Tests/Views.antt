-- ===== src/UserWeb/Tests/Views.antt =====
-- The theorems on the views, at concrete pages.
use infinite_image_hosting.Prelude.{
  ◌≤◌, ◌≡◌, ◌⊎◌, inl, refl, true, false, none, some, [], ◌∷◌, ◌++◌, List, map,
}
use infinite_image_hosting.Async.Program.{ok, fail, error, run}
use infinite_image_hosting.Async.Exec.{exec}
use infinite_image_hosting.UserWeb.Types.{
  app, gallery, dashboard, error as error_toast, private, monthly, ImageItem,
}
use infinite_image_hosting.UserWeb.Mapping.{map_user, map_image, starts_with, size_of}
use infinite_image_hosting.UserWeb.Http
use infinite_image_hosting.UserWeb.Http.{Request, Reply}
use infinite_image_hosting.UserWeb.Page.{Page, PrivacyFilter, boot, gallery_start, only}
use infinite_image_hosting.UserWeb.Views.Auth.Forms.{
  login_form, Form, submit_form, mode_after, form_ends_enabled, form_failure_keeps_mode,
  form_success_moves,
}
use infinite_image_hosting.UserWeb.Views.Upload.{upload}
use infinite_image_hosting.UserWeb.Views.Upload.Progress.{
  upload_ends_idle, upload_failure_shows, upload_success_shows,
}
use infinite_image_hosting.UserWeb.Views.Gallery.{filtered_images, delete_image, toggle_privacy}
use infinite_image_hosting.UserWeb.Views.Gallery.Filter.{Asked, Let, filter_selects}
use infinite_image_hosting.UserWeb.Views.Gallery.Actions.{
  delete_removes_one, delete_refused_keeps, toggle_replaces_one,
}
use infinite_image_hosting.UserWeb.Views.Pricing.{checkout, refresh_orders, orders_effect}
use infinite_image_hosting.UserWeb.Views.Pricing.Orders.{
  begun, pricing_ends_idle, stale_orders_change_nothing, checkout_cases,
}
use infinite_image_hosting.UserWeb.Views.ApiKeys.{create_key}
use infinite_image_hosting.UserWeb.Views.ApiKeys.Keys.{create_key_shows}
use infinite_image_hosting.UserWeb.Views.Settings.{handle_avatar_file, avatar_limit}
use infinite_image_hosting.UserWeb.Views.Settings.Avatar.{avatar_is_small_image}
use infinite_image_hosting.UserWeb.Tests.Data.{
  ops, env, answer, cat, up, down, idle, user, signed, dog, bird, file,
}

abbrev form : Form
form = login_form "ann@example.com" "secret"

form_ends_enabled_example :
    (exec down idle (submit_form signed form) signed).auth.submitting ≡ false
form_ends_enabled_example =
    form_ends_enabled down idle signed signed form (Http.login "ann@example.com" "secret") refl

abbrev refused : Page
refused = exec (λ q. fail (error "offline")) (λ t. t) (submit_form signed form) signed

form_failure_keeps_mode_example :
    (refused.auth.mode ≡ signed.auth.mode)
    × (refused.auth.pending ≡ signed.auth.pending)
    × (refused.auth.reset_pending ≡ signed.auth.reset_pending)
    × (refused.auth.notice ≡ some (record { type = error_toast; text = "offline" }))
    × (refused.user ≡ signed.user)
    × (refused.token ≡ signed.token)
form_failure_keeps_mode_example =
    form_failure_keeps_mode signed signed form (Http.login "ann@example.com" "secret")
      (error "offline") refl

abbrev granted : Page
granted = exec (λ q. ok (answer q)) (λ t. t) (submit_form signed form) signed

form_success_moves_example :
    (granted.auth.mode ≡ mode_after form signed.auth.mode)
    × (granted.current_view ≡ app dashboard)
    × (granted.user ≡ some user)
    × (granted.token ≡ "t2")
    × (granted.browser.stored_token ≡ some granted.token)
form_success_moves_example =
    form_success_moves answer signed signed form (Http.login "ann@example.com" "secret") refl

abbrev uploaded : Page
uploaded =
    exec up (λ t. record (idle t) { upload = t.upload }) (run (upload env signed (some file)))
      signed

upload_ends_idle_example : (uploaded.upload.uploading ≡ false) × (uploaded.upload.progress ≡ 0)
upload_ends_idle_example = upload_ends_idle env up idle signed signed file

abbrev not_uploaded : Page
not_uploaded = exec down (λ t. t) (run (upload env signed (some file))) signed

upload_failure_shows_example :
    (not_uploaded.images ≡ signed.images)
    × (not_uploaded.current_view ≡ signed.current_view)
    × (not_uploaded.toast ≡ some (record { msg = "offline"; type = error_toast }))
upload_failure_shows_example = upload_failure_shows env down signed file (error "offline") refl refl

abbrev put_up : Page
put_up = exec up (λ t. t) (run (upload env signed (some file))) signed

upload_success_shows_example :
    (put_up.current_view ≡ app gallery) × (put_up.images ≡ map (map_image env) (cat ∷ []))
upload_success_shows_example =
    upload_success_shows env up signed user file (answer (Http.upload_image file "t1")) refl refl
      refl

abbrev shown_under : PrivacyFilter → List ImageItem → List ImageItem
shown_under p images = filtered_images ops (record gallery_start { privacy_filter = p }) images

filter_selects_example :
    ((Asked ops "" dog × Let (only private) dog)
      × (shown_under (only private) (bird ∷ dog ∷ [])
          ≡ shown_under (only private) (bird ∷ []) ++ (dog ∷ shown_under (only private) [])))
    ⊎ ((¬ (Asked ops "" dog × Let (only private) dog))
        × (shown_under (only private) (bird ∷ dog ∷ [])
            ≡ shown_under (only private) (bird ∷ []) ++ shown_under (only private) []))
filter_selects_example =
    filter_selects ops (record gallery_start { privacy_filter = only private }) dog (bird ∷ []) []

abbrev deleted : Page
deleted = exec up (λ t. t) (run (delete_image signed true "dog")) signed

delete_removes_one_example : (deleted.images ≡ bird ∷ []) × (deleted.gallery.selected ≡ none)
delete_removes_one_example =
    delete_removes_one up signed (bird ∷ []) [] dog refl refl (refl, tt) tt refl

abbrev kept : Page
kept = exec down (λ t. t) (run (delete_image signed false "dog")) signed

delete_refused_keeps_example : (kept.images ≡ signed.images) × (kept.gallery ≡ signed.gallery)
delete_refused_keeps_example =
    delete_refused_keeps down signed false "dog" (error "offline") (inl refl)

abbrev toggled : Page
toggled = exec up (λ t. t) (run (toggle_privacy env signed dog)) signed

toggle_replaces_one_example :
    (toggled.images ≡ bird ∷ map_image env cat ∷ [])
    × (toggled.gallery.selected ≡ some (map_image env cat))
toggle_replaces_one_example =
    toggle_replaces_one up env signed (bird ∷ []) [] dog cat refl refl (refl, tt) tt refl

pricing_ends_idle_example :
    ((exec down idle (run (checkout signed "plus" monthly)) signed).pricing.checking_out ≡ "")
    × ((exec down idle (run (refresh_orders "t1")) signed).pricing.orders_loading ≡ false)
unfolding boot
pricing_ends_idle_example = pricing_ends_idle down idle signed signed "t1" "plus" monthly refl

abbrev reruns : Page → Page
reruns s = record s { pricing = record s.pricing { orders_run = 7 } }

stale_orders_change_nothing_example :
    exec up reruns (run (orders_effect signed)) signed ≡ reruns (begun signed signed)
unfolding boot
stale_orders_change_nothing_example = stale_orders_change_nothing up reruns signed signed refl refl

abbrev bought : Page
bought = exec up (λ t. t) (run (checkout signed "plus" monthly)) signed

checkout_cases_example :
    (bought.current_view ≡ app gallery)
    × (bought.browser.assigned ≡ some "https://pay.example.com")
    × (bought.orders_refresh_key ≡ signed.orders_refresh_key)
unfolding boot
checkout_cases_example = checkout_cases up idle signed "plus" monthly

abbrev made : Page
made = exec up (λ t. t) (run (create_key user "t1")) signed

create_key_shows_example : (made.api.latest_secret ≡ "yx_secret") × (made.api.keys ≡ [])
unfolding map_user
create_key_shows_example = create_key_shows up signed user "t1" refl

abbrev pictured : Page
pictured = exec up (λ t. t) (run (handle_avatar_file (some file))) signed

avatar_is_small_image_example :
    (pictured.settings.avatar_url ≡ signed.settings.avatar_url)
    ⊎ ((starts_with "image/" file.mime ≡ true)
        × (file.size ≤ avatar_limit)
        × (starts_with "data:image/" pictured.settings.avatar_url ≡ true)
        × (size_of pictured.settings.avatar_url ≤ avatar_limit))
avatar_is_small_image_example = avatar_is_small_image up signed file
