-- ===== src/OpenApi/Body.antt =====
-- Config and readRequestBody of openapi/openapi.go.
use gotchi.Base.{
  ap, ◌∙◌, ℕ, zero, suc, ◌+◌, ◌^◌, ◌≤◌, ◌<◌, ◌-◌, ◌≡◌, refl, ltb, leb, ℤ, pos, negsuc, ltb_ℤ, leb_ℤ,
  Bool, Bool-cases, inl, inr, Option, none, some, [], ◌∷◌, length, Text, if◌then◌else◌, arith,
}
use gotchi.Db.Migrations.FlatFs.{take, add_int}

pub record Config (Encoder : Type 0) : Type 0 where
  pub error_encoder : Option Encoder
  pub max_request_body_bytes : ℤ

abbrev pub default_max_request_body_bytes : ℤ
default_max_request_body_bytes = pos 1048576

abbrev encoder_or {ℓ} : {A : Type ℓ} → A → Option A → Option A
encoder_or d none = some d
encoder_or d (some e) = some e

-- `json` is defaultErrorEncoder
unfoldable pub with_defaults : {Encoder : Type 0} → Encoder → Config Encoder → Config Encoder
with_defaults json cfg = record {
  error_encoder = encoder_or json cfg.error_encoder;
  max_request_body_bytes =
      if leb_ℤ cfg.max_request_body_bytes (pos 0)
      then default_max_request_body_bytes
      else cfg.max_request_body_bytes;
}

-- What a body yields: its bytes, and then the end or an error.
pub record Body : Type 0 where
  pub bytes : Text
  pub fails : Bool

pub data BodyRead : Type 0 where
  body : Text → BodyRead
  too_large : BodyRead
  failed : BodyRead

-- limit + 1 on an int64
abbrev pub plus_one : ℤ → ℤ
plus_one (pos n) = add_int n 1
plus_one (negsuc zero) = pos 0
plus_one (negsuc (suc n)) = negsuc n

-- io.ReadAll(io.LimitReader(b, n)): a reader of no bytes is at its end, and the end of the bytes
-- that it may read hides what comes behind; none is an error
abbrev pub read_limited : Body → ℤ → Option Text
read_limited b (negsuc k) = some []
read_limited b (pos n) =
    if leb n (length b.bytes) then some (take n b.bytes) else if b.fails then none else some b.bytes

abbrev pub measured : ℤ → Option Text → BodyRead
measured limit none = failed
measured limit (some read) = if ltb_ℤ limit (pos (length read)) then too_large else body read

unfoldable pub read_request_body : Option Body → ℤ → BodyRead
read_request_body none limit = body []
read_request_body (some b) limit = measured limit (read_limited b (plus_one limit))

abbrev pub limited : ℕ → Body → BodyRead
limited limit b =
    if ltb limit (length b.bytes) then too_large else if b.fails then failed else body b.bytes

length-take : (n : ℕ) (t : Text) → n ≤ length t → length (take n t) ≡ n
length-take zero t h = refl
length-take (suc n) [] h = absurd (omega arith)
length-take (suc n) (c ∷ t) h = ground (arith, length-take n t)

plus_one-lt : (limit : ℕ) → limit + 1 < 2 ^ 63 → add_int limit 1 ≡ pos (limit + 1)
unfolding add_int
plus_one-lt limit h = ground arith

read-limited :
    (b : Body) (limit : ℕ)
    → limit + 1 < 2 ^ 63
    → read_request_body (some b) (pos limit) ≡ limited limit b
unfolding read_request_body
read-limited b limit h =
    rw (plus_one-lt limit h) (elim (Bool-cases (leb (limit + 1) (length b.bytes))) [
      | inl long ↦
          let size = length-take (limit + 1) b.bytes (ground arith) in rw long (ground arith)
      | inr short ↦ rw short (ground arith)
    ])

-- the limit that a configured number stands for
abbrev pub allowed : ℤ → ℕ
allowed (pos zero) = 1048576
allowed (pos (suc n)) = suc n
allowed (negsuc n) = 1048576

pub allowed_lem :
    {Encoder : Type 0} (json : Encoder) (cfg : Config Encoder) (z : ℤ)
    → cfg.max_request_body_bytes ≡ z
    → (with_defaults json cfg).max_request_body_bytes ≡ pos (allowed z)
unfolding with_defaults
allowed_lem json cfg (pos zero) e = rw e refl
allowed_lem json cfg (pos (suc n)) e = rw e (ground arith)
allowed_lem json cfg (negsuc n) e = rw e (ground arith)

-- Below the largest int64, the bytes within the limit or why there are none.
pub read_request_body-limited :
    {Encoder : Type 0} (json : Encoder) (cfg : Config Encoder) (b : Body)
    → allowed cfg.max_request_body_bytes + 1 < 2 ^ 63
    → read_request_body (some b) (with_defaults json cfg).max_request_body_bytes
      ≡ limited (allowed cfg.max_request_body_bytes) b
read_request_body-limited json cfg b h =
    ap (read_request_body (some b)) (allowed_lem json cfg cfg.max_request_body_bytes refl)
    ∙ read-limited b (allowed cfg.max_request_body_bytes) h

-- limit + 1 overflows
pub max_limit_reads_nothing : (b : Body) → read_request_body (some b) (pos (2 ^ 63 - 1)) ≡ body []
unfolding read_request_body add_int
max_limit_reads_nothing b = refl
