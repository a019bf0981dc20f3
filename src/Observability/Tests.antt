-- ===== src/Observability/Tests.antt =====
-- A handler that answers 404 with a body, and one that writes before its status.
use gotchi.Base.{◌≡◌, refl, ◌⊎◌, true, some, List, [], ◌∷◌, Text, codes, is_empty, same, none}
use gotchi.Web.Context.{Context}
use gotchi.Web.Session.{Stored}
use gotchi.Auth.Fixture.{toy_sessions}
use gotchi.Observability.Recorder.{
  Header, set_header, request_id_header, Action, write_header, write, change_header, client_status,
  client_header,
}
use gotchi.Observability.Audit.{Request, request_id, correlation_and_audit, audit_correlates}

abbrev html : Header → Header
html = set_header (codes "Content-Type") (codes "text/html")

abbrev not_found : Context → List (Text × Stored) → List Action × List (Text × Stored)
not_found ctx session =
    (change_header html ∷ write_header 404 ∷ write (codes "no such page") ∷ [], session)

abbrev no_header : Header
no_header name = none

abbrev get_page : Request
get_page = record {
  x_request_id = codes "abc";
  method = codes "GET";
  path = codes "/page";
  context = [];
}

audit_correlates_example :
    let x =
      correlation_and_audit toy_sessions true [] (codes "new") not_found no_header get_page [] in
    (request_id x.context ≡ some x.line.request_id)
    × (client_header x.recorder.response_writer request_id_header ≡ some x.line.request_id)
    × ((is_empty get_page.x_request_id ≡ true) ⊎ (x.line.request_id ≡ get_page.x_request_id))
    × (x.line.status ≡ client_status x.recorder.response_writer)
unfolding set_header same
audit_correlates_example =
    audit_correlates toy_sessions true [] (codes "new") not_found no_header get_page [] refl
      (refl, tt) ((λ h. refl), tt)
