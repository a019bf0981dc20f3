-- ===== src/App/Chain.antt =====
-- The order of the middleware of an application.
use gotchi.Base.{◌≡◌, List, ◌∷◌, ◌++◌, Text}
use gotchi.Session as Session
use gotchi.Auth.Config as Auth
use gotchi.Auth.Default
use gotchi.Password.Config as Password
use gotchi.App.Builder.{Builder}
use gotchi.App.Middleware.{Layer, load_and_save, correlation, custom_layers}

module _ {Service : Type 0} where
  -- the layers of a session, outside those that the options add
  abbrev pub IsChained : Builder Service → Text → List (Layer Service) → Type 0
  IsChained b key layers =
      (outer : List (Layer Service)) × (layers
        ≡ outer ++ (load_and_save ∷ (correlation key ∷ custom_layers b.middleware)))
