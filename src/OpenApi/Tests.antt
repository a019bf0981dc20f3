-- ===== src/OpenApi/Tests.antt =====
-- A library for which a body is valid if it is not empty.
use gotchi.Base.{
  ℕ, ◌≡◌, refl, ◌-◌, ◌^◌, pos, not, true, false, none, some, [], ◌∷◌, Text, codes, is_empty, arith,
}
use gotchi.Errors.{ok}
use gotchi.OpenApi.Body.{Body, Config}
use gotchi.OpenApi.Validator.{Library, ValidationError, serve}
use gotchi.OpenApi.Outcomes.{Outcome, serve-Outcome, max_limit_drops_body}

abbrev no_body : ValidationError
no_body = record {
  message = codes "body required";
  validation_type = codes "body";
  schema_validation_errors = [];
}

abbrev library : Library Text Text Text
library = record {
  new_document = λ spec. ok spec;
  validate_document = λ doc. none;
  validate_http_request = λ doc r bytes. (not (is_empty bytes), no_body ∷ [], bytes);
  validate_http_response = λ doc r response. (true, []);
}

abbrev reply : Text → Text → Text
reply r bytes = bytes

abbrev config : Config ℕ
config = record { error_encoder = none; max_request_body_bytes = pos 4 }

abbrev unlimited : Config ℕ
unlimited = record { error_encoder = none; max_request_body_bytes = pos (2 ^ 63 - 1) }

abbrev ping : Body
ping = record { bytes = codes "ping"; fails = false }

serve-Outcome_example :
    Outcome library reply
      (codes "spec")
      (codes "/")
      4
      ping
      (serve library reply (codes "spec") 0 config (codes "/") (some ping))
serve-Outcome_example =
    serve-Outcome library reply (codes "spec") (codes "/") 0 config ping (λ bytes. refl)
      (omega arith)

max_limit_drops_body_example :
    serve library reply (codes "spec") 0 unlimited (codes "/") (some ping)
    ≡ serve library reply (codes "spec") 0 unlimited (codes "/") none
max_limit_drops_body_example =
    max_limit_drops_body library reply (codes "spec") (codes "/") 0 unlimited ping refl
