-- ===== src/Web/Context.antt =====
-- context.Context as the chain of its values: context.WithValue puts a pair in front, and Value
-- takes the first with the key. A key of an unexported type equals no key of another package.
use gotchi.Base.{ℕ, ◌==◌, Bool, true, false, Option, none, some, List, [], ◌∷◌, Text, if◌then◌else◌}
use gotchi.Identity.Types.{SessionClaims}

pub data Key : Type 0 where
  claims_key tenant_key request_id_key : Key
  -- a key that the application passes in
  legacy : ℕ → Key

pub data Value : Type 0 where
  claims : SessionClaims → Value
  text : Text → Value

abbrev pub Context : Type 0
Context = List (Key × Value)

abbrev pub same_key : Key → Key → Bool
same_key claims_key claims_key = true
same_key tenant_key tenant_key = true
same_key request_id_key request_id_key = true
same_key (legacy a) (legacy b) = a == b
same_key _ _ = false

abbrev pub with_value : Context → Key → Value → Context
with_value ctx k v = (k, v) ∷ ctx

unfoldable pub value : Context → Key → Option Value
value [] k = none
value ((j, v) ∷ ctx) k = if same_key j k then some v else value ctx k

-- v.(string) and v.(SessionClaims)
abbrev pub as_text : Option Value → Option Text
as_text none = none
as_text (some (text t)) = some t
as_text (some (claims c)) = none

abbrev pub as_claims : Option Value → Option SessionClaims
as_claims none = none
as_claims (some (text t)) = none
as_claims (some (claims c)) = some c

-- auth/context.go
unfoldable pub with_session_claims : Context → SessionClaims → Context
with_session_claims ctx c = with_value ctx claims_key (claims c)

unfoldable pub session_claims_from_context : Context → Option SessionClaims
unfolding value
session_claims_from_context ctx = as_claims (value ctx claims_key)
