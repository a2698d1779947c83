-- ===== src/Server.antt =====
-- server.rs: the handlers of the dashboard document, from a request to its response.
pub mod Answers
mod Tests
use spark_dashboard.Prelude.{
  ℕ, String, Bool, true, false, Option, none, some, List, length, ltb, if◌then◌else◌,
}
use spark_dashboard.ConfigStore.{
  Bytes, Outcome, ErrorKind, FileSystem, ConfigStore, World, max_document_bytes, is_read_only,
  store, load, delete,
}

pub data Body : Type 0 where
  nothing : Body
  text : String → Body
  json : Bytes → Body

-- A response, with the value of its `x-spark-dashboard-read-only` header, if it has one.
pub record Response : Type 0 where
  pub status : ℕ
  pub read_only_header : Option Bool
  pub body : Body

-- The configuration in `AppState`; the metrics' sender is no part of these handlers.
pub record AppState : Type 0 where
  pub config : ConfigStore

-- `StatusCode`
pub data StatusCode : Type 0 where
  ok no_content_status not_found_status payload_too_large internal_server_error
        service_unavailable :
      StatusCode

abbrev pub code : StatusCode → ℕ
code StatusCode.ok = 200
code StatusCode.no_content_status = 204
code StatusCode.not_found_status = 404
code StatusCode.payload_too_large = 413
code StatusCode.internal_server_error = 500
code StatusCode.service_unavailable = 503

abbrev pub respond : AppState → StatusCode → Body → Response
respond state status body = record {
  status = code status;
  read_only_header = some (is_read_only state.config);
  body = body;
}

abbrev pub no_content : AppState → Response
no_content state = respond state StatusCode.no_content_status nothing

abbrev pub read_only_response : AppState → Response
read_only_response state =
    respond state StatusCode.service_unavailable
      (text "Dashboard configuration storage is read-only")

abbrev pub write_failed_response : AppState → Response
write_failed_response state =
    respond state StatusCode.internal_server_error
      (text "Failed to save the dashboard configuration")

abbrev pub not_found : Response
not_found = record {
  status = code StatusCode.not_found_status;
  read_only_header = none;
  body = text "Not Found";
}

-- A request that a crash cuts off has no response.
abbrev pub respond_to : {A : Type 0} → Outcome A → (A → Response) → Response → Outcome Response
respond_to (Outcome.done a) success failure = Outcome.done (success a)
respond_to (Outcome.failed e) success failure = Outcome.done failure
respond_to Outcome.crashed success failure = Outcome.crashed

abbrev document_response : AppState → Option Bytes → Response
document_response state none = no_content state
document_response state (some bytes) = respond state StatusCode.ok (json bytes)

module _ {S : Type 0} (fs : FileSystem S) where
  pub get_dashboard : AppState → World S → Outcome Response
  get_dashboard state w = respond_to (load fs state.config w) (document_response state) (
      respond state StatusCode.internal_server_error
        (text "Failed to read the dashboard configuration"))

  pub put_dashboard : AppState → Bytes → World S → Outcome Response × World S
  put_dashboard state body w =
      if ltb max_document_bytes (length body)
      then (
        Outcome.done (
            respond state StatusCode.payload_too_large
              (text "Dashboard configuration exceeds the size limit")),
        w,
      )
      else if is_read_only state.config
      then (Outcome.done (read_only_response state), w)
      else (let r = store fs state.config body w in
          (respond_to r.0 (λ _. no_content state) (write_failed_response state), r.1))

  pub delete_dashboard : AppState → World S → Outcome Response × World S
  delete_dashboard state w =
      if is_read_only state.config
      then (Outcome.done (read_only_response state), w)
      else (let r = delete fs state.config w in
          (respond_to r.0 (λ _. no_content state) (write_failed_response state), r.1))
