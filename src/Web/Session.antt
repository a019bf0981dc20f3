-- ===== src/Web/Session.antt =====
-- session/session.go: the manager passes each call on to scs.SessionManager, which is a parameter.
-- A session is the data behind one token; Get after Put and after Destroy is what scs documents.
use gotchi.Base.{◌≡◌, Option, none, some, [], Text, same, if◌then◌else◌}
use gotchi.Errors.{Result, ok}
use gotchi.Identity.Types.{SessionClaims}

pub data Stored : Type 0 where
  claims : SessionClaims → Stored
  text : Text → Stored

pub record Sessions : Type 1 where
  pub Session : Type 0
  pub get : Text → Session → Option Stored
  pub put : Text → Stored → Session → Session
  pub destroy : Session → Result Session
  pub get-put :
      (j k : Text) (v : Stored) (s : Session)
      → get j (put k v s) ≡ (if same k j then some v else get j s)
  pub get-destroy : (j : Text) (s t : Session) → destroy s ≡ ok t → get j t ≡ none

abbrev pub as_claims : Option Stored → Option SessionClaims
as_claims none = none
as_claims (some (claims c)) = some c
as_claims (some (text t)) = none

-- v, _ := x.(string)
abbrev pub as_text : Option Stored → Text
as_text none = []
as_text (some (claims c)) = []
as_text (some (text t)) = t
