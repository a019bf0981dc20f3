-- ===== src/Auth/Tests.antt =====
-- Runs on the fixture, and the theorems at inputs that meet their hypotheses.
use gotchi.Base.{◌≡◌, refl, none, some, [], codes, same}
use gotchi.Errors.{ok}
use gotchi.Web.Http.{Response, json, no_body, redirect}
use gotchi.Web.Context.{Context}
use gotchi.Web.Handling.{run}
use gotchi.Strings.{trim_space, trim_left}
use gotchi.Auth.Middleware.{
  MiddlewareConfig, mode_ui, with_defaults, require_authenticated, handle_unauthenticated,
}
use gotchi.Auth.Middleware.Picker.{custom_picker_loops}
use gotchi.Auth.Middleware.Guard.{Outcome, require_authenticated-guards}
use gotchi.Auth.Subject.{resolve_subject_from_claims, agreed_subject}
use gotchi.Auth.Handler.Tenants.{select_tenant_handler, logout_handler}
use gotchi.Auth.Handler.Tenants.Select.{SelectOutcome, select_tenant_only_to_membership}
use gotchi.Auth.Journey.{logout_locks_out}
use gotchi.Auth.Fixture.{
  toy_sessions, toy_uuids, toy_handler, callback_request, ann_info, ann_claims, logged_in,
}

abbrev page : Context → Response
page ctx = json 200 no_body

abbrev ui : MiddlewareConfig
ui = record {
  mode = mode_ui;
  session_key = [];
  login_path = [];
  tenant_picker_path = [];
  allow_paths_without_tenant = [];
  legacy_tenant_context_key = some 1;
  legacy_claims_context_key = none;
}

subject_of_ann :
    resolve_subject_from_claims toy_handler.unicode_trim (codes "ann") ann_info.sub
    ≡ ok (codes "ann")
unfolding resolve_subject_from_claims agreed_subject trim_space trim_left same
subject_of_ann = refl

require_authenticated-guards_example :
    Outcome toy_uuids page (with_defaults ui) (some (ann_claims none)) (codes "/x") [] (
      require_authenticated toy_uuids toy_sessions page ui (logged_in none).session (codes "/x") [])
unfolding with_defaults same
require_authenticated-guards_example =
    require_authenticated-guards toy_uuids toy_sessions page ui (logged_in none).session
      (codes "/x") []

select_tenant_only_to_membership_example :
    SelectOutcome toy_uuids toy_sessions toy_handler callback_request
      (logged_in none)
      (run
        (select_tenant_handler toy_uuids toy_sessions toy_handler callback_request)
        (logged_in none)).0
      (run
        (select_tenant_handler toy_uuids toy_sessions toy_handler callback_request)
        (logged_in none)).1
select_tenant_only_to_membership_example =
    select_tenant_only_to_membership toy_uuids toy_sessions toy_handler callback_request
      (logged_in none)

logout_locks_out_example :
    ((run (logout_handler toy_uuids toy_sessions toy_handler) (logged_in (some 5))).0.status ≡ 303)
    × (require_authenticated toy_uuids toy_sessions page ui
          (run (logout_handler toy_uuids toy_sessions toy_handler) (logged_in (some 5))).1.session
          (codes "/x")
          []
        ≡ handle_unauthenticated (with_defaults ui))
logout_locks_out_example =
    logout_locks_out toy_uuids toy_sessions toy_handler page (logged_in (some 5)) [] ui (codes "/x")
      [] refl

abbrev ui_with_picker : MiddlewareConfig
ui_with_picker = record ui { tenant_picker_path = codes "/pick" }

custom_picker_loops_example :
    require_authenticated toy_uuids toy_sessions page ui_with_picker
      (logged_in none).session
      (codes "/pick")
      []
    ≡ redirect (codes "/pick") 303
unfolding with_defaults same
custom_picker_loops_example =
    custom_picker_loops toy_uuids toy_sessions page ui_with_picker (logged_in none).session
      (ann_claims none) [] refl refl refl refl refl refl refl refl
