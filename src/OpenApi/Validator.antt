-- ===== src/OpenApi/Validator.antt =====
-- Validator and MountChi of openapi/openapi.go.
use gotchi.Base.{
  ℕ, ◌≡◌, Bool, true, false, ◌&&◌, Option, none, some, List, [], ◌∷◌, ◌++◌, map, String, Text,
  codes, same, if◌then◌else◌,
}
use gotchi.Errors.{Result, ok, err}
use gotchi.OpenApi.Body.{
  Body, BodyRead, body, too_large, failed, Config, with_defaults, read_request_body,
}

pub record ErrorDetail : Type 0 where
  pub type : Text
  pub reason : Text

pub record ErrorPayload : Type 0 where
  pub message : String
  pub errors : List ErrorDetail

-- A ValidationError of the library; of a SchemaValidationFailure the text of Error() and the reason.
pub record Failure : Type 0 where
  pub text : Text
  pub reason : Text

pub record ValidationError : Type 0 where
  pub message : Text
  pub validation_type : Text
  pub schema_validation_errors : List Failure

-- strings.Join(reasons, "; ")
abbrev pub joined : List Text → Text
joined [] = []
joined (t ∷ []) = t
joined (t ∷ u ∷ rest) = t ++ (codes "; " ++ joined (u ∷ rest))

unfoldable pub map_schema_validation_errors : List Failure → List Text
map_schema_validation_errors errors = map (λ e. e.text) errors

abbrev pub reason_of : Text → List Failure → Text
reason_of message [] = message
reason_of message (e ∷ rest) = joined (map_schema_validation_errors (e ∷ rest))

unfoldable pub detail_of : ValidationError → ErrorDetail
detail_of e = record {
  type = e.validation_type;
  reason = reason_of e.message e.schema_validation_errors;
}

abbrev compatible : ValidationError → List Failure → Bool
compatible e [] = false
compatible e (f ∷ []) =
    same e.validation_type (codes "schema")
    && same f.reason (codes "additional properties 'responses' not allowed")
compatible e (f ∷ g ∷ rest) = false

-- whether the errors of ValidateDocument, if any, let Validator return
unfoldable pub accepts_spec : Option (List ValidationError) → Bool
accepts_spec none = true
accepts_spec (some []) = false
accepts_spec (some (e ∷ [])) = compatible e e.schema_validation_errors
accepts_spec (some (e ∷ f ∷ rest)) = false

-- What the library is asked: to read a document and make a validator of it, to check the document,
-- and to validate a request with the bytes of its body, of which it tells what it leaves for the
-- next reader; and a response.
pub record Library (Document Request Response : Type 0) : Type 0 where
  pub new_document : Text → Result Document
  pub validate_document : Document → Option (List ValidationError)
  pub validate_http_request : Document → Request → Text → Bool × List ValidationError × Text
  pub validate_http_response : Document → Request → Response → Bool × List ValidationError

-- What the client gets, what `next` was given as the body, if it was called, and the messages logged.
pub data Answer (Response : Type 0) : Type 0 where
  refused : ℕ → ErrorPayload → Answer Response
  served : Response → Answer Response

pub record Exchange (Response : Type 0) : Type 0 where
  pub answer : Answer Response
  pub next_body : Option Text
  pub logged : List Text

module _ {Document Request Response : Type 0} (lib : Library Document Request Response)
    (next : Request → Text → Response) (doc : Document) where
  abbrev pub refuse : ℕ → ErrorPayload → Exchange Response
  refuse status payload = record { answer = refused status payload; next_body = none; logged = [] }

  abbrev pub complaints : Bool × List ValidationError → List Text
  complaints (true, errors) = []
  complaints (false, errors) = map (λ e. e.message) errors

  unfoldable pub serve_next : Request → Text → Exchange Response
  serve_next r left =
      let response = next r left in
      record {
        answer = served response;
        next_body = some left;
        logged = complaints (lib.validate_http_response doc r response);
      }

  abbrev pub validated : Request → Bool × List ValidationError × Text → Exchange Response
  validated r (true, errors, left) = serve_next r left
  validated r (false, errors, left) =
      refuse 400 (record { message = "Invalid request"; errors = map detail_of errors })

  -- the handler that the middleware makes of `next`
  unfoldable pub serve_read : Request → BodyRead → Exchange Response
  serve_read r too_large = refuse 413 (record { message = "Request body too large"; errors = [] })
  serve_read r failed = refuse 400 (record { message = "Invalid request body"; errors = [] })
  serve_read r (body bytes) = validated r (lib.validate_http_request doc r bytes)

  unfoldable pub serve :
      {Encoder : Type 0} → Encoder → Config Encoder → Request → Option Body → Exchange Response
  serve json cfg r b =
      serve_read r (read_request_body b (with_defaults json cfg).max_request_body_bytes)

  -- the verdict of the library on a body
  abbrev pub Passes : Request → Text → Type 0
  Passes r bytes = (lib.validate_http_request doc r bytes).0 ≡ true

-- Validator up to the handler: none is a panic
unfoldable pub validator :
    {Document Request Response : Type 0}
    → Library Document Request Response
    → Text
    → Option Document
validator lib spec = elim (lib.new_document spec) [
  | err e ↦ none
  | ok doc ↦ if accepts_spec (lib.validate_document doc) then some doc else none
]

-- What MountChi does to a router: registers on it, or on a group behind these middlewares.
pub data Mounted (Middleware Handler : Type 0) : Type 0 where
  on_router : Handler → Mounted Middleware Handler
  on_group : List Middleware → Handler → Mounted Middleware Handler

unfoldable pub mount_chi :
    {Middleware Handler : Type 0} → Handler → List Middleware → Mounted Middleware Handler
mount_chi handler [] = on_router handler
mount_chi handler (mw ∷ rest) = on_group (mw ∷ rest) handler
