-- ===== src/UserWeb/Session/Views/Upload.antt =====
-- The handlers of UploadView and the tokens of the session.
use infinite_image_hosting.Prelude.{String, Option, none, some, List, [], ◌∷◌}
use infinite_image_hosting.Async.Rules.{Holds}
use infinite_image_hosting.UserWeb.Types.{File, ImageItem}
use infinite_image_hosting.UserWeb.Mapping.{Env}
use infinite_image_hosting.UserWeb.Page.{Page, Handler, UploadState}
use infinite_image_hosting.UserWeb.Views.Upload
use infinite_image_hosting.UserWeb.Session.InSync.{
  InSync, sync_steps, Holds-show_toast, Holds-handle_resend_verification, Holds-handle_upload_file,
  Holds-on_upload_success,
}

pub Holds-set_upload : (f : UploadState → UploadState) → Holds InSync (Upload.set_upload f)
unfolding Upload.set_upload
Holds-set_upload f = search sync_steps

pub Holds-handle_upload :
    (on_file : File → Handler ImageItem) (on_success : ImageItem → Handler (Unit {0}))
    (on_error : String → Handler (Unit {0})) (file : Option File)
    → ((f : File) → Holds InSync (on_file f))
    → ((i : ImageItem) → Holds InSync (on_success i))
    → ((message : String) → Holds InSync (on_error message))
    → Holds InSync (Upload.handle_upload on_file on_success on_error file)
unfolding Upload.handle_upload
Holds-handle_upload on_file on_success on_error none hf hs he = search sync_steps
Holds-handle_upload on_file on_success on_error (some file) hf hs he =
    search (sync_steps, Holds-set_upload, hf, hs, he) depth 14

pub Holds-upload :
    (env : Env) (seen : Page) (file : Option File) → Holds InSync (Upload.upload env seen file)
unfolding Upload.upload
Holds-upload env seen file =
    Holds-handle_upload _ _ _ file (Holds-handle_upload_file env seen)
      (Holds-on_upload_success env seen) (λ message. Holds-show_toast message _)

pub Holds-drop_files :
    (env : Env) (seen : Page) (files : List File) → Holds InSync (Upload.drop_files env seen files)
unfolding Upload.drop_files
Holds-drop_files env seen [] = search (sync_steps, Holds-set_upload, Holds-upload)
Holds-drop_files env seen (file ∷ files) = search (sync_steps, Holds-set_upload, Holds-upload)

pub Holds-drag_over : Holds InSync Upload.drag_over
unfolding Upload.drag_over
Holds-drag_over = search (sync_steps, Holds-set_upload) depth 14

pub Holds-drag_leave : Holds InSync Upload.drag_leave
unfolding Upload.drag_leave
Holds-drag_leave = search (sync_steps, Holds-set_upload) depth 14

pub Holds-on_resend_verification :
    (user_id : String) → Holds InSync (Upload.on_resend_verification user_id)
unfolding Upload.on_resend_verification
Holds-on_resend_verification user_id =
    search (sync_steps, Holds-handle_resend_verification) depth 14

pub Holds-resend_verification :
    (user_id : String) → Holds InSync (Upload.resend_verification user_id)
unfolding Upload.resend_verification
Holds-resend_verification user_id =
    search (sync_steps, Holds-set_upload, Holds-on_resend_verification) depth 14
