-- ===== src/OpenApi/Outcomes.antt =====
-- What the validation middleware answers, whatever the body and the library say.
use mathlib.Core.Path.{subst}
use gotchi.Base.{
  ℕ, ◌+◌, ◌^◌, ◌<◌, ◌≤◌, ◌≡◌, refl, sym, ap, ◌∙◌, ◌⊎◌, inl, inr, ltb, pos, ◌-◌, Bool, true, false,
  Bool-cases, none, some, List, [], map, length, Text, arith,
}
use gotchi.OpenApi.Body.{
  Body, Config, allowed, limited, read_request_body, read_request_body-limited, allowed_lem,
  max_limit_reads_nothing,
}
use gotchi.OpenApi.Validator.{
  Library, ValidationError, refused, served, Exchange, ErrorPayload, detail_of, complaints,
  validated, serve_next, serve_read, serve, Passes,
}

module _ {Document Request Response : Type 0} (lib : Library Document Request Response)
    (next : Request → Text → Response) (doc : Document) (r : Request) where
  -- the handler is called with the bytes, and its response is the answer
  abbrev pub Served : Text → Exchange Response → Type 0
  Served bytes x =
      Passes lib next doc r bytes
      × (x.answer ≡ served (next r bytes))
      × (x.next_body ≡ some bytes)
      × (x.logged ≡ complaints lib next doc (lib.validate_http_response doc r (next r bytes)))

  -- the handler is not called
  abbrev pub Refused : ℕ → ErrorPayload → Exchange Response → Type 0
  Refused status payload x = (x.answer ≡ refused status payload) × (x.next_body ≡ none)

  abbrev pub Rejected : Text → Exchange Response → Type 0
  Rejected bytes x =
      ((lib.validate_http_request doc r bytes).0 ≡ false)
      × Refused 400
          (record {
            message = "Invalid request";
            errors = map detail_of (lib.validate_http_request doc r bytes).1;
          })
          x

  abbrev pub Outcome : ℕ → Body → Exchange Response → Type 0
  Outcome limit b x =
      ((limit < length b.bytes)
        × Refused 413 (record { message = "Request body too large"; errors = [] }) x)
      ⊎ (((length b.bytes ≤ limit)
            × (b.fails ≡ true)
            × Refused 400 (record { message = "Invalid request body"; errors = [] }) x)
          ⊎ ((length b.bytes ≤ limit)
              × (b.fails ≡ false)
              × (Rejected b.bytes x ⊎ Served b.bytes x)))

  judged :
      (v : Bool × List ValidationError × Text) (bytes : Text)
      → v.2 ≡ bytes
      → ((v.0 ≡ false)
          × Refused 400
              (record { message = "Invalid request"; errors = map detail_of v.1 })
              (validated lib next doc r v))
        ⊎ ((v.0 ≡ true)
            × ((validated lib next doc r v).answer ≡ served (next r bytes))
            × ((validated lib next doc r v).next_body ≡ some bytes)
            × ((validated lib next doc r v).logged
                ≡ complaints lib next doc (lib.validate_http_response doc r (next r bytes))))
  unfolding serve_next
  judged (true, errors, left) bytes h = inr (
    refl,
    ap (λ t. served (next r t)) h,
    ap some h,
    ap (λ t. complaints lib next doc (lib.validate_http_response doc r (next r t))) h,
  )
  judged (false, errors, left) bytes h = inl (refl, (refl, refl))

  limited-Outcome :
      ((bytes : Text) → (lib.validate_http_request doc r bytes).2 ≡ bytes)
      → (limit : ℕ) (b : Body) → Outcome limit b (serve_read lib next doc r (limited limit b))
  unfolding serve_read
  limited-Outcome restores limit b = elim (Bool-cases (ltb limit (length b.bytes))) [
    | inl long ↦ rw long (inl (ground arith, (refl, refl)))
    | inr short ↦ elim (Bool-cases b.fails) [
      | inl broken ↦ rw (short, broken) (inr (inl (ground arith, refl, (refl, refl))))
      | inr whole ↦
          rw (short, whole)
            (inr (
              inr (
                ground arith,
                refl,
                judged (lib.validate_http_request doc r b.bytes) b.bytes (restores b.bytes),
              )))
    ]
  ]

  -- Where the library leaves the body that it reads and the limit is below the largest int64: a body
  -- above the limit is answered by 413; one that cannot be read, and one that the library rejects,
  -- by 400, the latter with the details of its errors; and only a body that it passes reaches the
  -- handler, byte by byte, whose response is the answer, also where the log complains of it.
  pub serve-Outcome :
      {Encoder : Type 0} (json : Encoder) (cfg : Config Encoder) (b : Body)
      → ((bytes : Text) → (lib.validate_http_request doc r bytes).2 ≡ bytes)
      → allowed cfg.max_request_body_bytes + 1 < 2 ^ 63
      → Outcome (allowed cfg.max_request_body_bytes) b (serve lib next doc json cfg r (some b))
  unfolding serve
  serve-Outcome json cfg b restores h =
      subst
        (λ read. Outcome (allowed cfg.max_request_body_bytes) b (serve_read lib next doc r read))
        (sym (read_request_body-limited json cfg b h))
        (limited-Outcome restores (allowed cfg.max_request_body_bytes) b)

  -- Where the largest int64 is configured as the limit, every request is validated and served as if
  -- it had no body.
  pub max_limit_drops_body :
      {Encoder : Type 0} (json : Encoder) (cfg : Config Encoder) (b : Body)
      → cfg.max_request_body_bytes ≡ pos (2 ^ 63 - 1)
      → serve lib next doc json cfg r (some b) ≡ serve lib next doc json cfg r none
  unfolding serve read_request_body
  max_limit_drops_body json cfg b e = ap (serve_read lib next doc r) (
      ap (read_request_body (some b)) (allowed_lem json cfg (pos (2 ^ 63 - 1)) e)
      ∙ max_limit_reads_nothing b)
