-- ===== src/Auth/Subject.antt =====
-- The tests of auth/handler.go on strings: the subject of a login and the accepted media types.
use gotchi.Base.{
  ◌≡◌, ◌≢◌, refl, ◌↔◌, ◌⊎◌, inl, inr, same_iff, Bool-cases, Bool, true, false, ◌||◌, not, List, [],
  ◌∷◌, Text, codes, is_empty, same, if◌then◌else◌,
}
use gotchi.Errors.{plain, Result, ok, err}
use gotchi.Strings.{trim_space, split}

-- the tests on the trimmed subjects
unfoldable pub agreed_subject : Text → Text → Result Text
agreed_subject id_token_sub user_info_sub =
    if is_empty id_token_sub
    then err (plain "id token subject is missing")
    else if is_empty user_info_sub
    then ok id_token_sub
    else if not (same user_info_sub id_token_sub)
    then err (plain "id token and userinfo subjects do not match")
    else ok id_token_sub

agreed_subject-ok :
    (a b t : Text) → agreed_subject a b ≡ ok t → (a ≡ t) × (t ≢ []) × ((b ≡ []) ⊎ (b ≡ t))
unfolding agreed_subject
agreed_subject-ok [] b t e = absurd (cc)
agreed_subject-ok (c ∷ a) [] t e = (cc, λ q. cc, inl refl)
agreed_subject-ok (c ∷ a) (d ∷ b) t e = elim (Bool-cases (same (d ∷ b) (c ∷ a))) [
  | inl equal ↦
      (let same_text = (same_iff (d ∷ b) (c ∷ a)).0 equal in
        let value : ok (c ∷ a) ≡ ok t = rw (equal) at e in (cc, λ q. cc, inr (cc)))
  | inr differ ↦
      (let value : err (plain "id token and userinfo subjects do not match") ≡ ok t =
          rw (differ) at e in
        absurd (cc))
]

ok-agreed_subject :
    (a b t : Text) → (a ≡ t) × (t ≢ []) × ((b ≡ []) ⊎ (b ≡ t)) → agreed_subject a b ≡ ok t
unfolding agreed_subject
ok-agreed_subject [] b t (e, full, both) = absurd (full (cc))
ok-agreed_subject (c ∷ a) [] t (e, full, both) = cc
ok-agreed_subject (c ∷ a) (d ∷ b) t (e, full, both) = elim both [
  | inl missing ↦ absurd (cc)
  | inr other ↦ rw ((same_iff (d ∷ b) (c ∷ a)).1 (cc)) (cc)
]

module _ (unicode_trim : Text → Text) where
  unfoldable pub resolve_subject_from_claims : Text → Text → Result Text
  unfolding trim_space agreed_subject
  resolve_subject_from_claims id_token_subject user_info_subject =
      agreed_subject (trim_space unicode_trim id_token_subject)
        (trim_space unicode_trim user_info_subject)

  abbrev first : List Text → Text
  first [] = []
  first (p ∷ ps) = p

  -- one part of the Accept header
  unfoldable pub is_html : Text → Bool
  unfolding trim_space split
  is_html part =
      let media_type = trim_space unicode_trim (first (split b';' part)) in
      same media_type (codes "text/html") || same media_type (codes "*/*")

  unfoldable pub any_html : List Text → Bool
  unfolding is_html
  any_html [] = false
  any_html (p ∷ ps) = let rest = any_html ps in if is_html p then true else rest

  -- `header` is r.Header.Get
  unfoldable pub accepts_html : (Text → Text) → Bool
  unfolding any_html split
  accepts_html header =
      if same (header (codes "HX-Request")) (codes "true")
      then true
      else if is_empty (header (codes "Accept"))
      then true
      else any_html (split b',' (header (codes "Accept")))

  -- A subject comes out exactly if it is the trimmed subject of the ID token, is not empty, and the
  -- trimmed subject of the user info is empty or equal to it.
  pub resolve_subject_iff :
      (id_token_subject user_info_subject subject : Text)
      → (resolve_subject_from_claims id_token_subject user_info_subject ≡ ok subject) ↔ (
          (trim_space unicode_trim id_token_subject ≡ subject)
          × (subject ≢ [])
          × ((trim_space unicode_trim user_info_subject ≡ [])
              ⊎ (trim_space unicode_trim user_info_subject ≡ subject)))
  unfolding resolve_subject_from_claims
  resolve_subject_iff id_token_subject user_info_subject subject =
      (agreed_subject-ok _ _ subject, ok-agreed_subject _ _ subject)
