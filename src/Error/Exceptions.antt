-- ===== src/Error/Exceptions.antt =====
-- The exception classes of app/core/exception/error_base.py, each as the value it builds.
use Prim.Native.String.{◌++◌ as str_append}
use blog_be.Prelude.{String}
use blog_be.Error.Types.{ErrorCode, Error, custom}

abbrev pub post_not_found : String → Error
post_not_found post_id = custom (record {
  code = ErrorCode.post_not_found;
  message = str_append "Post not found: " post_id;
  status_code = 404;
})

abbrev pub tag_not_found : String → Error
tag_not_found name = custom (record {
  code = ErrorCode.tag_not_found;
  message = str_append "Tag not found: " name;
  status_code = 404;
})

abbrev pub slug_conflict : String → Error
slug_conflict slug = custom (record {
  code = ErrorCode.slug_conflict;
  message = str_append "Slug already exists: " slug;
  status_code = 409;
})

abbrev pub unauthorized : String → Error
unauthorized message =
    custom (record { code = ErrorCode.unauthorized; message = message; status_code = 401 })

-- the default message of `Unauthorized()`
abbrev pub authentication_required : Error
authentication_required = unauthorized "Authentication required"

abbrev pub content_not_found : String → Error
content_not_found key = custom (record {
  code = ErrorCode.content_not_found;
  message = str_append "Content not found: " key;
  status_code = 404;
})

-- `Forbidden()` with its default message
abbrev pub forbidden : Error
forbidden =
    custom (record {
      code = ErrorCode.forbidden;
      message = "Insufficient permissions";
      status_code = 403;
    })

-- the `CustomException(ErrorCode.VALIDATION_ERROR, …, 422)` of the content routes and service
abbrev pub validation_error : String → Error
validation_error message =
    custom (record { code = ErrorCode.validation_error; message = message; status_code = 422 })
