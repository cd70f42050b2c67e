-- ===== src/UserWeb/Views/Upload/Progress.antt =====
-- An upload from its start to its end.
use infinite_image_hosting.Prelude.{
  ◌≡◌, inl, inr, true, false, truthy, some, ◌∷◌, map, arith, Bool-cases,
}
use infinite_image_hosting.Async.Program.{Outcome-cases, Outcome, ok, fail, Thrown, message_or, run}
use infinite_image_hosting.Async.Exec.{exec}
use infinite_image_hosting.UserWeb.Types.{
  success, User, File, ImageItem, error as error_toast, app, gallery,
}
use infinite_image_hosting.UserWeb.Mapping.{Env, map_image}
use infinite_image_hosting.UserWeb.Http
use infinite_image_hosting.UserWeb.Http.{Request, Reply, Uploaded}
use infinite_image_hosting.UserWeb.Page.{Page, show_toast, put_toast, put_view}
use infinite_image_hosting.UserWeb.App.Images.{handle_upload_file, refresh_images}
use infinite_image_hosting.UserWeb.App.Account.{refresh_account}
use infinite_image_hosting.UserWeb.App.Navigation.{navigate, on_upload_success}
use infinite_image_hosting.UserWeb.Views.Upload.{upload, handle_upload, set_upload}

-- What the two refreshes write.
module _ (server : (r : Request) → Outcome (Reply r)) (seen : Page) (s : Page) where
  kept-refresh_account :
      let after = exec server (λ t. t) (run (refresh_account seen)) s in
      (after.images ≡ s.images) × (after.current_view ≡ s.current_view)
  unfolding refresh_account
  kept-refresh_account = ground arith

module _ (env : Env) (server : (r : Request) → Outcome (Reply r)) (seen : Page) (s : Page) where
  view-refresh_images :
      (exec server (λ t. t) (run (refresh_images env seen)) s).current_view ≡ s.current_view
  unfolding refresh_images
  view-refresh_images = ground arith

  images-refresh_images :
      truthy seen.token ≡ true
      → (exec server (λ t. t) (run (refresh_images env seen)) s).images
        ≡ elim (server (Http.list_images seen.token)) [
          | ok rows ↦ map (map_image env) rows
          | fail x ↦ s.images
        ]
  unfolding refresh_images
  images-refresh_images live = ground arith

-- What follows a successful upload writes neither the upload view's cells nor, but for the list's
-- new reading, the images below the new one.
module _ (env : Env) (server : (r : Request) → Outcome (Reply r)) (seen : Page)
    (img : ImageItem) where
  upload-on_upload_success :
      (others : Page → Page) (s : Page)
      → (exec server
          (λ t. record (others t) { upload = t.upload })
          (run (on_upload_success env seen img))
          s).upload
        ≡ s.upload
  unfolding on_upload_success navigate refresh_images refresh_account show_toast
  upload-on_upload_success others s = ground arith

  after_upload :
      (s : Page) (u : User)
      → seen.user ≡ some u
      → truthy seen.token ≡ true
      → let after = exec server (λ t. t) (run (on_upload_success env seen img)) s in
        (after.current_view ≡ app gallery)
        × (after.images ≡ elim (server (Http.list_images seen.token)) [
          | ok rows ↦ map (map_image env) rows
          | fail x ↦ img ∷ s.images
        ])
  unfolding on_upload_success navigate show_toast
  after_upload s u signed live =
      let s₁ =
        put_view (app gallery) (put_toast "上传成功" success (record s { images = img ∷ s.images })) in
      let s₂ = exec server (λ t. t) (run (refresh_images env seen)) s₁ in
      ground (
        arith,
        view-refresh_images env server seen s₁,
        images-refresh_images env server seen s₁ live,
        kept-refresh_account server seen s₂,
      )

module _ (env : Env) (server : (r : Request) → Outcome (Reply r)) where
  -- Whatever the server answers and whatever other handlers do meanwhile outside the upload view's
  -- cells, an upload ends with the view ready for the next file and the progress at 0.
  pub upload_ends_idle :
      (others : Page → Page) (seen s : Page) (file : File)
      → let after =
          exec server
            (λ t. record (others t) { upload = t.upload })
            (run (upload env seen (some file)))
            s in
        (after.upload.uploading ≡ false) × (after.upload.progress ≡ 0)
  unfolding upload handle_upload set_upload handle_upload_file show_toast
  upload_ends_idle others seen s file = elim (Bool-cases (truthy seen.token)) [
    | inr out ↦ ground arith
    | inl live ↦ elim (Outcome-cases (server (Http.upload_image file seen.token))) [
      | inl (up, good) ↦ ground (
        arith,
        upload-on_upload_success env server seen
            (record (map_image env up.image) { url = up.raw_link }) others
            (record (others
              (record (others
                (record s { upload = record s.upload { uploading = true; progress = 35 } })) {
                  upload = record s.upload { uploading = true; progress = 100 };
                })) { upload = record s.upload { uploading = false; progress = 0 } }),
      )
      | inr (x, bad) ↦ ground arith
    ]
  ]

  -- If nothing else happens meanwhile, an upload that a signed-in user starts and the server refuses
  -- changes no image and no view, and shows the error's message, or a general one where it has none.
  pub upload_failure_shows :
      (s : Page) (file : File) (x : Thrown)
      → truthy s.token ≡ true
      → server (Http.upload_image file s.token) ≡ fail x
      → let after = exec server (λ t. t) (run (upload env s (some file))) s in
        (after.images ≡ s.images)
        × (after.current_view ≡ s.current_view)
        × (after.toast ≡ some (record { msg = message_or "上传失败" x; type = error_toast }))
  unfolding upload handle_upload set_upload handle_upload_file show_toast
  upload_failure_shows s file x live bad = ground arith

  -- If nothing else happens meanwhile, an image that a signed-in user uploads stands first in the
  -- gallery, with the link that the server gave, until the list is read again: if that read succeeds,
  -- the gallery holds the server's list. Either way the gallery is on the screen.
  pub upload_success_shows :
      (s : Page) (u : User) (file : File) (up : Uploaded)
      → s.user ≡ some u
      → truthy s.token ≡ true
      → server (Http.upload_image file s.token) ≡ ok up
      → let after = exec server (λ t. t) (run (upload env s (some file))) s in
        (after.current_view ≡ app gallery)
        × (after.images ≡ elim (server (Http.list_images s.token)) [
          | ok rows ↦ map (map_image env) rows
          | fail x ↦ record (map_image env up.image) { url = up.raw_link } ∷ s.images
        ])
  unfolding upload handle_upload set_upload handle_upload_file show_toast
  upload_success_shows s u file up signed live good = ground (
    arith,
    after_upload env server s (record (map_image env up.image) { url = up.raw_link })
        (record s { upload = record s.upload { uploading = false; progress = 0 } }) u signed live,
  )
