-- ===== src/Problems.antt =====
-- Error responses: app/core/exceptions.py, the handlers and the middleware of
-- app/core/middleware.py, and the order in which app/main.py installs them. Names of headers are
-- compared without regard to case. A new identifier is an argument: the text of the `uuid4` of the
-- call.
pub mod HeaderList
pub mod RequestId
mod Tests
use Prim.Native.String.{String, ◌++◌}
use multi_tenant_saas.Base.{
  ℕ, Bool, true, false, not, Option, none, some, List, [], ◌∷◌, filter, map, if◌then◌else◌,
}
use multi_tenant_saas.Problems.HeaderList.{
  Headers, request_id_name, response_time_name, is_named, set_header, update, set_key,
}
use multi_tenant_saas.Text.{Text, text_eq, lower}

-- `AppException`; its `extra` is not read.
pub record AppException : Type 0 where
  pub message : String
  pub status_code : ℕ
  pub title : String
  pub type_uri : String

-- `AppException(message, status_code)`
abbrev pub plain_app_exception : String → ℕ → AppException
plain_app_exception message status_code = record {
  message = message;
  status_code = status_code;
  title = "Internal Application Error";
  type_uri = "about:blank";
}

abbrev pub entity_not_found_exception : String → String → AppException
entity_not_found_exception entity_name identifier = record {
  message = entity_name ++ (" with identifier '" ++ (identifier ++ "' was not found."));
  status_code = 404;
  title = "Entity Not Found";
  type_uri = "https://api.saas.platform/errors/not-found";
}

abbrev pub entity_conflict_exception : String → AppException
entity_conflict_exception message = record {
  message = message;
  status_code = 409;
  title = "Resource Conflict";
  type_uri = "https://api.saas.platform/errors/conflict";
}

abbrev pub forbidden_operation_exception : String → AppException
forbidden_operation_exception message = record {
  message = message;
  status_code = 403;
  title = "Forbidden Operation";
  type_uri = "https://api.saas.platform/errors/forbidden";
}

-- One error of `RequestValidationError.errors()`: the parts of `loc` and `msg`, which may be
-- missing.
pub record ValidationError : Type 0 where
  pub loc : List String
  pub msg : Option String

-- What can leave a route.
pub data Raised : Type 0 where
  app_error : AppException → Raised
  http_error : (status_code : ℕ) → (detail : String) → Headers → Raised
  validation_error : List ValidationError → Raised
  unhandled : Raised

pub record ErrorDetail : Type 0 where
  pub field : String
  pub issue : String

-- The time stamp of the body is left out.
pub record ProblemDetailResponse : Type 0 where
  pub type_uri : String
  pub title : String
  pub status : ℕ
  pub detail : String
  pub instance_path : Text
  pub request_id : Text
  pub invalid_params : List ErrorDetail

pub data Content : Type 0 where
  problem : ProblemDetailResponse → Content
  answer : Text → Content

pub record Response : Type 0 where
  pub status_code : ℕ
  pub content : Content
  pub headers : Headers

pub record Request : Type 0 where
  pub path : Text
  pub x_request_id : Option Text

-- `structlog.contextvars.get_contextvars().get("request_id", str(uuid.uuid4()))`
abbrev pub bound_or : Option Text → Text → Text
bound_or none new_id = new_id
bound_or (some request_id) new_id = request_id

abbrev pub problem_response : ProblemDetailResponse → Headers → Response
problem_response payload headers = record {
  status_code = payload.status;
  content = problem payload;
  headers = headers;
}

unfoldable pub app_exception_handler : Text → Text → AppException → Response
app_exception_handler request_id path exc =
    problem_response
      (record {
        type_uri = exc.type_uri;
        title = exc.title;
        status = exc.status_code;
        detail = exc.message;
        instance_path = path;
        request_id = request_id;
        invalid_params = [];
      })
      ((request_id_name, request_id) ∷ [])

unfoldable pub http_exception_handler : Text → Text → ℕ → String → Headers → Response
unfolding update
http_exception_handler request_id path status_code detail exc_headers =
    problem_response
      (record {
        type_uri = "about:blank";
        title = "HTTP Error";
        status = status_code;
        detail = detail;
        instance_path = path;
        request_id = request_id;
        invalid_params = [];
      })
      (update ((request_id_name, request_id) ∷ []) exc_headers)

-- `" -> ".join(...)`
abbrev pub join_loc : List String → String
join_loc [] = ""
join_loc (p ∷ []) = p
join_loc (p ∷ q ∷ loc) = p ++ (" -> " ++ join_loc (q ∷ loc))

abbrev pub message_or_default : Option String → String
message_or_default none = "Invalid value"
message_or_default (some msg) = msg

abbrev pub error_detail : ValidationError → ErrorDetail
error_detail e = record { field = join_loc e.loc; issue = message_or_default e.msg }

unfoldable pub validation_exception_handler : Text → Text → List ValidationError → Response
validation_exception_handler request_id path errors =
    problem_response
      (record {
        type_uri = "https://api.saas.platform/errors/validation-failed";
        title = "Schema Validation Error";
        status = 422;
        detail = "The supplied request payload failed schema validation constraints.";
        instance_path = path;
        request_id = request_id;
        invalid_params = map error_detail errors;
      })
      ((request_id_name, request_id) ∷ [])

unfoldable pub global_unhandled_exception_handler : Text → Text → Response
global_unhandled_exception_handler request_id path =
    problem_response
      (record {
        type_uri = "https://api.saas.platform/errors/internal-error";
        title = "Internal Infrastructure Failure";
        status = 500;
        detail = "An internal server error occurred while processing the request.";
        instance_path = path;
        request_id = request_id;
        invalid_params = [];
      })
      ((request_id_name, request_id) ∷ [])

-- What a route comes to: a response or an exception.
pub data Outcome : Type 0 where
  returned : Response → Outcome
  raised : Raised → Outcome

-- The handlers inside of the middleware; an exception of no handler goes on.
unfoldable pub handled : Text → Text → Outcome → Outcome
unfolding app_exception_handler http_exception_handler validation_exception_handler
handled request_id path (returned response) = returned response
handled request_id path (raised (app_error exc)) =
    returned (app_exception_handler request_id path exc)
handled request_id path (raised (http_error code detail headers)) =
    returned (http_exception_handler request_id path code detail headers)
handled request_id path (raised (validation_error errors)) =
    returned (validation_exception_handler request_id path errors)
handled request_id path (raised unhandled) = raised unhandled

-- `RequestContextLogMiddleware.dispatch` around them: an exception goes on.
unfoldable pub dispatch : Text → Text → Outcome → Outcome
unfolding set_header
dispatch request_id process_time (returned response) = returned (record response {
  headers =
      set_header response_time_name process_time
        (set_header request_id_name request_id response.headers);
})
dispatch request_id process_time (raised exc) = raised exc

-- The outermost handler answers for what is left.
abbrev pub outermost : Text → Text → Outcome → Response
outermost request_id path (returned response) = response
outermost request_id path (raised exc) = global_unhandled_exception_handler request_id path

-- The application: `dispatch` binds the identifier that every handler reads.
unfoldable pub respond : Request → Text → Text → Outcome → Response
unfolding handled dispatch global_unhandled_exception_handler
respond request new_id process_time outcome =
    let request_id = bound_or request.x_request_id new_id in
    outermost request_id request.path
      (dispatch request_id process_time (handled request_id request.path outcome))
