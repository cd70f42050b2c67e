-- ===== src/UserWeb/Views/Settings/Avatar.antt =====
-- Which avatars SettingsView takes.
use infinite_image_hosting.Prelude.{◌≤◌, String, ◌≡◌, ◌⊎◌, inl, inr, true, some, arith}
use infinite_image_hosting.Async.Program.{stop, Outcome-cases, Outcome, Thrown, run}
use infinite_image_hosting.Async.Exec.{exec}
use infinite_image_hosting.UserWeb.Types.{File, error as error_toast}
use infinite_image_hosting.UserWeb.Mapping.{starts_with, size_of}
use infinite_image_hosting.UserWeb.Http
use infinite_image_hosting.UserWeb.Http.{Request, Reply, Uploaded}
use infinite_image_hosting.UserWeb.Page.{Page, Running, show_toast}
use infinite_image_hosting.UserWeb.Views.Settings.{
  handle_avatar_file, avatar_loaded, set_settings, avatar_limit,
}

avatar_loaded_bounds :
    (server : (r : Request) → Outcome (Reply r)) (s : Page) (url : String) (e : Thrown → Running)
    → let after = exec server (λ t. t) (avatar_loaded url (λ _. stop) e) s in
      (after.settings.avatar_url ≡ s.settings.avatar_url)
      ⊎ ((starts_with "data:image/" after.settings.avatar_url ≡ true)
          × (size_of after.settings.avatar_url ≤ avatar_limit))
unfolding avatar_loaded set_settings show_toast
avatar_loaded_bounds server s url e = ground arith

-- Whatever file is picked and however its reading ends, if nothing else happens meanwhile the avatar
-- in the form is the one from before, or it was read from an image file of at most 512 KiB and is
-- itself an image data URL of at most 512 Ki characters.
pub avatar_is_small_image :
    (server : (r : Request) → Outcome (Reply r)) (s : Page) (file : File)
    → let after = exec server (λ t. t) (run (handle_avatar_file (some file))) s in
      (after.settings.avatar_url ≡ s.settings.avatar_url)
      ⊎ ((starts_with "image/" file.mime ≡ true)
          × (file.size ≤ avatar_limit)
          × (starts_with "data:image/" after.settings.avatar_url ≡ true)
          × (size_of after.settings.avatar_url ≤ avatar_limit))
unfolding handle_avatar_file show_toast
avatar_is_small_image server s file = elim (Outcome-cases (server (Http.read_data_url file))) [
  | inl (url, good) ↦ ground (
    arith,
    avatar_loaded_bounds server s url
        (λ x. show_toast "Avatar 读取失败，请重试" error_toast (λ _. stop) (λ _. stop)),
  )
  | inr (x, bad) ↦ ground arith
]
