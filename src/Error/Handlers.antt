-- ===== src/Error/Handlers.antt =====
-- app/core/exception/exception_handlers.py: an exception as a JSON response.
use blog_be.Prelude.{ℕ, String, Option, none, some, List, map}
use blog_be.Error.Types.{ErrorCode, CustomException, value}

-- One entry of `exc.errors()`. `input` stands for all that the handler does not copy.
pub record ValidationIssue : Type 0 where
  pub loc : Option (List String)
  pub msg : Option String
  pub kind : Option String
  pub input : Option String

pub record Detail : Type 0 where
  pub loc : Option (List String)
  pub msg : Option String
  pub kind : Option String

pub record JsonResponse : Type 0 where
  pub status_code : ℕ
  pub code : String
  pub message : String
  pub details : Option (List Detail)

unfoldable pub custom_exception_handler : CustomException → JsonResponse
custom_exception_handler exc = record {
  status_code = exc.status_code;
  code = value exc.code;
  message = exc.message;
  details = none;
}

abbrev safe_error : ValidationIssue → Detail
safe_error e = record { loc = e.loc; msg = e.msg; kind = e.kind }

unfoldable pub validation_exception_handler : List ValidationIssue → JsonResponse
validation_exception_handler errors = record {
  status_code = 422;
  code = value ErrorCode.validation_error;
  message = "Validation failed";
  details = some (map safe_error errors);
}
