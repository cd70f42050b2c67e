-- ===== src/UserWeb/Http/Envelope.antt =====
-- `apiFetch` after its request is sent: from the HTTP response to data or a thrown error.
use infinite_image_hosting.Prelude.{
  ℕ, String, ◌<>◌, ◌≡◌, ◌↔◌, Bool, true, ◌&&◌, if◌then◌else◌, ◌or◌, Option, none, some, arith,
}
use infinite_image_hosting.Async.Program.{Outcome, ok, fail, error}
use infinite_image_hosting.UserWeb.Format.{show}

pub record ApiError : Type 0 where
  pub code : String
  pub message : String

-- The body `APIEnvelope<T>`; `data` is what its reader casts it to, if the server sent it.
pub record ApiEnvelope (T : Type 0) : Type 0 where
  pub is_ok : Bool
  pub content : T
  pub problem : Option ApiError

-- What `fetch` and `res.json()` may come to.
pub data Response (T : Type 0) : Type 0 where
  unreachable : (message : String) → Response T
  not_json : (is_ok : Bool) → (status : ℕ) → (message : String) → Response T
  received : (is_ok : Bool) → (status : ℕ) → ApiEnvelope T → Response T

-- `payload.error?.message || …`
abbrev error_text : Option ApiError → String → String
error_text none fallback = fallback
error_text (some e) fallback = e.message or fallback

unfoldable pub api_fetch : {T : Type 0} → Response T → Outcome T
unfolding show
api_fetch (unreachable message) = fail (error message)
api_fetch (not_json is_ok status message) = fail (error message)
api_fetch (received is_ok status payload) =
    if is_ok && payload.is_ok
    then ok payload.content
    else fail (error (error_text payload.problem ("请求失败 (" <> (show status <> ")"))))

-- Whether the response carries data: both the HTTP status and the envelope say so.
abbrev pub IsAccepted : {T : Type 0} → Response T → T → Type 0
IsAccepted (received is_ok status payload) d =
    (is_ok ≡ true) × (payload.is_ok ≡ true) × (payload.content ≡ d)
IsAccepted _ d = ⊥

-- `apiFetch` returns data exactly when the response arrived with a successful status and its
-- envelope says `ok`, and then it returns that envelope's data.
pub api_fetch-ok : {T : Type 0} (r : Response T) (d : T) → (api_fetch r ≡ ok d) ↔ IsAccepted r d
unfolding api_fetch
api_fetch-ok (unreachable m) d = ((λ h. cc), λ h. absurd h)
api_fetch-ok (not_json o s m) d = ((λ h. cc), λ h. absurd h)
api_fetch-ok (received o s p) d = (λ h. ground arith, λ h. ground arith)
