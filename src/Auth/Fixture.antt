-- ===== src/Auth/Fixture.antt =====
-- A small provider, store and session, on which the theorems are tried.
use gotchi.Base.{
  ℕ, ◌≡◌, ◌≢◌, refl, true, Option, none, some, List, [], ◌∷◌, Text, codes, same, pos, if◌then◌else◌,
}
use gotchi.Errors.{ok}
use gotchi.Database.{member}
use gotchi.Database.Users.{Membership}
use gotchi.Database.Connection.Calm.{idle}
use gotchi.Identity.Types.{SessionClaims, UserRef}
use gotchi.Web.Session.{Sessions, Stored, claims}
use gotchi.Web.Tenant.{Uuids}
use gotchi.Web.Handling.{World}
use gotchi.Auth.Config.{Config, with_defaults}
use gotchi.Auth.Oidc.{Provider, Token, UserInfoClaims}
use gotchi.Auth.Handler.{Request, OidcHandler}
use gotchi.Password.Fixture.{tables}

-- a session as the list of what was put, latest first
abbrev pub latest : Text → List (Text × Stored) → Option Stored
latest j [] = none
latest j ((k, v) ∷ rest) = if same k j then some v else latest j rest

pub latest-destroyed : (j : Text) (t : List (Text × Stored)) → ok [] ≡ ok t → latest j t ≡ none
latest-destroyed j [] e = refl
latest-destroyed j (x ∷ t) e = absurd (cc)

pub unit-ne_nil : (n : ℕ) → n ∷ [] ≢ []
unit-ne_nil n e = cc

abbrev pub toy_sessions : Sessions
toy_sessions = record {
  Session = List (Text × Stored);
  get = latest;
  put = λ k v s. (k, v) ∷ s;
  destroy = λ s. ok [];
  get-put = λ j k v s. refl;
  get-destroy = λ j s t e. latest-destroyed j t e;
}

-- a UUID written as one unit
abbrev pub read_unit : Text → Option ℕ
read_unit [] = none
read_unit (n ∷ []) = some n
read_unit (n ∷ m ∷ t) = none

abbrev pub toy_uuids : Uuids
toy_uuids = record {
  print = λ n. n ∷ [];
  parse = read_unit;
  parse-print = λ n. refl;
  print-ne_nil = λ n e. unit-ne_nil n e;
}

abbrev pub ann_info : UserInfoClaims
ann_info = record {
  sub = codes "ann ";
  email = codes "ann@x";
  email_verified = true;
  name = codes "Ann";
  nickname = [];
  preferred_username = [];
}

abbrev pub ann_token : Token
ann_token = record { access_token = codes "at"; id_token = some (codes "idt") }

abbrev pub toy_provider : Provider
toy_provider = record {
  auth_code_url = λ t. t;
  exchange = λ code. ok ann_token;
  verify = λ raw. ok raw;
  subject_of = λ id. ok (codes "ann");
  user_info = λ token. ok (codes "info");
  user_claims = λ info. ok ann_info;
}

abbrev pub home : Membership
home = record { tenant_id = 5; tenant_name = codes "Default"; role = member }

abbrev pub ann_ref : UserRef
ann_ref = record { user_id = 7; issuer = codes "https://idp"; subject = codes "ann" }

abbrev pub toy_config : Config
toy_config = with_defaults (record {
  enabled = true;
  issuer_url = codes "https://idp";
  client_id = codes "id";
  client_secret = codes "secret";
  redirect_url = codes "/back";
  login_path = [];
  post_login_redirect = [];
  tenant_picker_path = [];
  session_key = [];
  authorize_path = [];
  callback_path = [];
  tenants_path = [];
  tenant_select_path = [];
  logout_path = [];
  post_logout_redirect = [];
  state_cookie_name = [];
  cookie_secure = none;
})

abbrev pub toy_handler : OidcHandler
toy_handler = record {
  cfg = toy_config;
  oidc = record {
    provider = toy_provider;
    issuer_url = codes "https://idp";
    end_session_endpoint = [];
  };
  store = record {
    resolve_or_provision_user = λ i c. (ok ann_ref, c);
    list_memberships = λ id c. (ok (home ∷ []), c);
    get_tenant_display = λ id c. (ok (record { tenant_id = 5; name = codes "Default" }), c);
  };
  unicode_trim = λ t. t;
  logout_url = λ a b c. ok a;
}

abbrev pub callback_request : Request
callback_request = record {
  cookie = λ name. some (codes "st");
  query = λ key. codes "st";
  header = λ key. [];
  body_tenant_id = ok (5 ∷ []);
}

abbrev pub ann_claims : Option ℕ → SessionClaims
ann_claims active = record {
  authenticated = true;
  user_id = 7;
  issuer = codes "https://idp";
  subject = codes "ann";
  active_tenant_id = active;
}

abbrev pub world_with : List (Text × Stored) → World (List (Text × Stored))
world_with session = record {
  session = session;
  connection = idle tables (pos 1000) 0;
  cookies = [];
}

abbrev pub logged_in : Option ℕ → World (List (Text × Stored))
logged_in active = world_with ((codes "auth", claims (ann_claims active)) ∷ [])
