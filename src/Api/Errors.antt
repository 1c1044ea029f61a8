-- ===== src/Api/Errors.antt =====
-- The `HTTPException`s that the handlers raise, and `server_error` for an exception that they do not catch.
use all_debrid_proxy.Base.{ℕ, Result}
use all_debrid_proxy.Validation.Invalid.{Invalid}

pub data HttpError : Type 0 where
  invalid : Invalid → HttpError
  no_identifier not_waiting invalid_role invalid_status credentials_required password_required :
      HttpError
  no_file save_failed unauthorized not_found conflict too_large server_error : HttpError

-- The status code of each.
abbrev pub status_of : HttpError → ℕ
status_of (HttpError.invalid e) = 400
status_of HttpError.no_identifier = 400
status_of HttpError.not_waiting = 400
status_of HttpError.invalid_role = 400
status_of HttpError.invalid_status = 400
status_of HttpError.credentials_required = 400
status_of HttpError.password_required = 400
status_of HttpError.unauthorized = 401
status_of HttpError.not_found = 404
status_of HttpError.conflict = 409
status_of HttpError.no_file = 400
status_of HttpError.save_failed = 400
status_of HttpError.too_large = 413
status_of HttpError.server_error = 500

abbrev pub Response {ℓ} : Type ℓ → Type ℓ
Response A = Result HttpError A
