-- ===== src/Error/Types.antt =====
-- app/core/exception/codes.py and the class of app/core/exception/error_base.py.
use blog_be.Prelude.{ℕ, String}

pub data ErrorCode : Type 0 where
  post_not_found tag_not_found slug_conflict unauthorized forbidden content_not_found
        validation_error internal :
      ErrorCode

-- `code.value`
abbrev pub value : ErrorCode → String
value ErrorCode.post_not_found = "POST_NOT_FOUND"
value ErrorCode.tag_not_found = "TAG_NOT_FOUND"
value ErrorCode.slug_conflict = "SLUG_CONFLICT"
value ErrorCode.unauthorized = "UNAUTHORIZED"
value ErrorCode.forbidden = "FORBIDDEN"
value ErrorCode.content_not_found = "CONTENT_NOT_FOUND"
value ErrorCode.validation_error = "VALIDATION_ERROR"
value ErrorCode.internal = "INTERNAL"

pub record CustomException : Type 0 where
  pub code : ErrorCode
  pub message : String
  pub status_code : ℕ

-- What a handler can raise: the program's own exceptions, a request that FastAPI refuses (422), what
-- the database raises on a violated key or refuses of a value, a failed `assert`, the RuntimeError of
-- an engine or key that is not set up, a ValueError, the TypeError of a key of the wrong kind, and what
-- SQLAlchemy raises on a second `begin`.
pub data Error : Type 0 where
  custom : CustomException → Error
  request_validation_error integrity_error data_error assertion_error runtime_error value_error
        type_error invalid_request :
      Error
