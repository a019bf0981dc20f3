-- ===== src/Observability/Audit.antt =====
-- RequestID, WithRequestID and CorrelationAndAudit of observability/middleware.go. The handler
-- behind is a function of the context and the session; what it does with its ResponseWriter is a
-- list. The duration is left out.
use gotchi.Base.{
  ℕ, ◌==◌, ◌≡◌, refl, Bool, true, false, inl, inr, ◌⊎◌, Option, none, some, List, [], ◌∷◌, Text,
  is_empty, same_self, if◌then◌else◌,
}
use gotchi.Identity.Types.{SessionClaims}
use gotchi.Auth.Default
use gotchi.Web.Context.{Context, request_id_key, text, with_value, value, as_text}
use gotchi.Web.Tenant.{non_empty}
use gotchi.Web.Session.{Sessions, as_claims}
use gotchi.Observability.Recorder.{
  Header, set_header, request_id_header, Action, StatusRecorder, fresh, record_response,
  client_status, client_header, IsOrderly, Leaves, orderly_recorded, record_response-header,
}

unfoldable pub request_id : Context → Option Text
unfolding value
request_id ctx = non_empty (as_text (value ctx request_id_key))

unfoldable pub with_request_id : Context → Text → Context
with_request_id ctx id = with_value ctx request_id_key (text id)

pub record AuditLine : Type 0 where
  pub request_id : Text
  pub method : Text
  pub path : Text
  pub status : ℕ
  pub user_id : Option ℕ
  pub tenant_id : Option ℕ

pub record Request : Type 0 where
  -- the header X-Request-ID
  pub x_request_id : Text
  pub method : Text
  pub path : Text
  pub context : Context

abbrev pub id_or : Text → Text → Text
id_or new given = if is_empty given then new else given

abbrev pub key_or : Text → Text
key_or key = if is_empty key then Default.session_key else key

abbrev user_of : Option SessionClaims → Option ℕ
user_of none = none
user_of (some c) = if c.user_id == 0 then none else some c.user_id

abbrev tenant_of : Option SessionClaims → Option ℕ
tenant_of none = none
tenant_of (some c) = c.active_tenant_id

id_or-given : (new given : Text) → is_empty new ≡ false → is_empty (id_or new given) ≡ false
id_or-given new [] h = h
id_or-given new (c ∷ t) h = refl

reused : (new given : Text) → (is_empty given ≡ true) ⊎ (id_or new given ≡ given)
reused new [] = inl refl
reused new (c ∷ t) = inr refl

request_id-with_request_id :
    (ctx : Context) (id : Text)
    → is_empty id ≡ false
    → request_id (with_request_id ctx id) ≡ some id
unfolding request_id with_request_id
request_id-with_request_id ctx id h = rw h refl

set_header-same : (name value : Text) (h : Header) → set_header name value h name ≡ some value
unfolding set_header
set_header-same name value h = rw (same_self name) refl

module _ (s : Sessions) where
  -- the claims in the session, where there is a manager
  unfoldable pub claims_in : Bool → Text → s.Session → Option SessionClaims
  claims_in false key session = none
  claims_in true key session = as_claims (s.get (key_or key) session)

  -- What the request leaves behind: the context that the handler was given, its ResponseWriter, the
  -- session, and the line of the log.
  pub record Audited : Type 0 where
    pub context : Context
    pub recorder : StatusRecorder
    pub session : s.Session
    pub line : AuditLine

  -- `new_id` is what uuid.NewString gives, `header` what other middleware has set before
  unfoldable pub correlation_and_audit :
      Bool
      → Text
      → Text
      → (Context → s.Session → List Action × s.Session)
      → Header
      → Request
      → s.Session
      → Audited
  correlation_and_audit has_manager key new_id next header r session =
      let id = id_or new_id r.x_request_id in
      let ctx = with_request_id r.context id in
      let w = fresh (set_header request_id_header id header) in
      let behind = next ctx session in
      let rw = record_response w behind.0 in
      let claims = claims_in has_manager key behind.1 in
      record {
        context = ctx;
        recorder = rw;
        session = behind.1;
        line = record {
          request_id = id;
          method = r.method;
          path = r.path;
          status = rw.status;
          user_id = user_of claims;
          tenant_id = tenant_of claims;
        };
      }

  -- Where uuid.NewString gives no empty text and the handler leaves the header X-Request-ID alone and
  -- sets at most one status, a final one and before it writes: the context that the handler was given,
  -- the header X-Request-ID that the client gets and the line of the log carry one identifier, which
  -- is that of the request if it brought one, and the line has the status that the client gets.
  pub audit_correlates :
      (has_manager : Bool) (key new_id : Text)
      (next : Context → s.Session → List Action × s.Session) (header : Header) (r : Request)
      (session : s.Session)
      → is_empty new_id ≡ false
      → IsOrderly (next (with_request_id r.context (id_or new_id r.x_request_id)) session).0
      → Leaves request_id_header
          (next (with_request_id r.context (id_or new_id r.x_request_id)) session).0
      → let x = correlation_and_audit has_manager key new_id next header r session in
        (request_id x.context ≡ some x.line.request_id)
        × (client_header x.recorder.response_writer request_id_header ≡ some x.line.request_id)
        × ((is_empty r.x_request_id ≡ true) ⊎ (x.line.request_id ≡ r.x_request_id))
        × (x.line.status ≡ client_status x.recorder.response_writer)
  unfolding correlation_and_audit record_response
  audit_correlates has_manager key new_id next header r session fresh_id orderly leaves =
      let id = id_or new_id r.x_request_id in
      (
        request_id-with_request_id r.context id (id_or-given new_id r.x_request_id fresh_id),
        record_response-header request_id_header id _
            (fresh (set_header request_id_header id header)) 200 leaves
            (set_header-same request_id_header id header) tt,
        reused new_id r.x_request_id,
        orderly_recorded _ (fresh (set_header request_id_header id header)) refl orderly,
      )
