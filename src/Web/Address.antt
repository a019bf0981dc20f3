-- ===== src/Web/Address.antt =====
-- net.SplitHostPort of Go: the host of an address with a port.
use gotchi.Base.{
  ℕ, Bool, true, false, ◌||◌, ◌==◌, Option, none, some, [], ◌∷◌, Text, codes, if◌then◌else◌, ◌≡◌,
  refl,
}
use gotchi.Strings.{cut}

abbrev pub holds : ℕ → Text → Bool
holds b [] = false
holds b (c ∷ s) = c == b || holds b s

abbrev add_first : ℕ → Option Text → Option Text
add_first c none = none
add_first c (some p) = some (c ∷ p)

-- what stands before the last `b`
unfoldable pub before_last : ℕ → Text → Option Text
before_last b [] = none
before_last b (c ∷ s) =
    if holds b s then add_first c (before_last b s) else if c == b then some [] else none

-- behind the "]": a colon and a port, and nothing that a port does not hold
abbrev is_port : Text → Bool
is_port [] = false
is_port (c ∷ port) =
    if c == b':'
    then (if holds b':' port then false else if holds b']' port then false else true)
    else false

abbrev bracketed : Text → Option (Text × Text) → Option Text
bracketed t none = none
bracketed t (some (host, rest)) =
    if is_port rest then (if holds b'[' t then none else some host) else none

abbrev plain_host : Text → Option Text → Option Text
plain_host s none = none
plain_host s (some host) =
    if holds b':' host || holds b'[' s || holds b']' s then none else some host

-- none on an error
unfoldable pub split_host_port : Text → Option Text
unfolding before_last cut
split_host_port [] = none
split_host_port (c ∷ t) =
    if c == b'[' then bracketed t (cut b']' t) else plain_host (c ∷ t) (before_last b':' (c ∷ t))

hosts :
    (split_host_port (codes "10.0.0.1:80") ≡ some (codes "10.0.0.1"))
    × (split_host_port (codes "[::1]:80") ≡ some (codes "::1"))
    × (split_host_port (codes "[::1]") ≡ none)
    × (split_host_port (codes "::1:80") ≡ none)
    × (split_host_port (codes "10.0.0.1") ≡ none)
unfolding split_host_port
hosts = (refl, refl, refl, refl, refl)
