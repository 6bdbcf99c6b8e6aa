-- ===== src/Error.antt =====
-- app/core/exception: the error codes (codes.py), the exceptions (error_base.py) and the handlers
-- that turn an exception into a response (exception_handlers.py).
mod Types
mod Exceptions
pub mod Handlers
pub use Types.{
  ErrorCode, CustomException, Error, value, custom, request_validation_error, integrity_error,
  data_error, assertion_error, runtime_error, value_error, type_error, invalid_request,
}
unfoldable pub use Exceptions.*
