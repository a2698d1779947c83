-- ===== src/Http.antt =====
-- engines/common.rs: `EngineHttp`, the answers of an engine to GET requests.
use spark_dashboard.Prelude.{
  ◌≡◌, ◌⊎◌, inl, inr, refl, ℕ, String, Bool, ◌&&◌, Option, leb, ◌==◌, nat_eq, if◌then◌else◌,
  or_default,
}
use spark_dashboard.Text.{append}
use spark_dashboard.Engine.Types.{EngineStatus, running, error}

pub record HttpResponse : Type 0 where
  pub status : ℕ
  pub server : Option String
  -- The text of the body, none where the reading fails.
  pub body : Option String

-- What sending a request comes to: an answer, or an error with its text that may be a timeout.
pub data Reply : Type 0 where
  answered : HttpResponse → Reply
  failed : Bool → String → Reply

pub Reply-cases :
    (reply : Reply)
    → ((timeout : Bool) × (message : String) × (reply ≡ failed timeout message))
      ⊎ ((r : HttpResponse) × (reply ≡ answered r))
Reply-cases (answered r) = inr (r, refl)
Reply-cases (failed timeout message) = inl (timeout, message, refl)

-- The answers of an engine by their path, at one moment.
abbrev pub Server : Type 0
Server = String → Reply

-- `StatusCode::is_success`
abbrev pub is_success : ℕ → Bool
is_success status = leb 200 status && leb status 299

-- `format!("HTTP {}", status)`; the reason after the number is a parameter.
module _ (reason : ℕ → String) where
  unfoldable pub http_error : ℕ → EngineStatus
  http_error status = error (append "HTTP " (reason status))

  unfoldable pub status_of : Reply → EngineStatus
  unfolding http_error
  status_of (answered r) = if is_success r.status then running else http_error r.status
  status_of (failed timeout message) = error message

  unfoldable pub health : Server → String → EngineStatus
  unfolding status_of
  health server path = status_of (server path)

  -- A path that is not found is answered by the other.
  unfoldable pub health_or : Server → String → String → EngineStatus
  unfolding status_of health
  health_or server path fallback = elim (server path) [
    | answered r ↦ if r.status == 404 then health server fallback else status_of (answered r)
    | failed timeout message ↦ error message
  ]

-- `response.text().await.unwrap_or_default()`
abbrev pub body_of : HttpResponse → String
body_of r = or_default "" r.body
