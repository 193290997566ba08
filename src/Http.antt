-- ===== src/Http.antt =====
-- The part of `axum::http` that the handlers name: status codes, and the pair of a status and a text
-- that a handler of the gateway or of the desktop service fails with.
use lab_stream_gate.Common.{Result}
use lab_stream_gate.Common.Text.{Text}

pub data StatusCode : Type 0 where
  ok_200 created accepted no_content bad_request unauthorized forbidden not_found method_not_allowed
        gone unprocessable_entity too_many_requests internal_server_error service_unavailable :
      StatusCode

pub record HttpError : Type 0 where
  pub status : StatusCode
  pub message : Text

abbrev pub Http {ℓ} : Type ℓ → Type ℓ
Http A = Result HttpError A

-- `Err((status, message))`.
abbrev pub http_error : StatusCode → Text → HttpError
http_error s m = record { status = s; message = m }
