-- ===== src/Observability/Recorder.antt =====
-- statusRecorder of observability/middleware.go, around a ResponseWriter of net/http.
use gotchi.Base.{
  ap, sym, ◌∙◌, ℕ, ◌≡◌, refl, leb, ◌&&◌, not, ◌==◌, Bool, false, Bool-cases, inl, inr, Option, none,
  some, List, [], ◌∷◌, Text, codes, same, if◌then◌else◌,
}

-- http.Header by what Get gives, under canonical names
abbrev pub Header : Type 0
Header = Text → Option Text

unfoldable pub set_header : Text → Text → Header → Header
set_header key value h name = if same name key then some value else h name

-- X-Request-ID, as Set writes it
abbrev pub request_id_header : Text
request_id_header = codes "X-Request-Id"

-- What a handler does with its ResponseWriter: WriteHeader, Write, and what it does to Header().
pub data Action : Type 0 where
  write_header : ℕ → Action
  write : Text → Action
  change_header : (Header → Header) → Action

-- The header that Header() returns, the one sent with the status, once it is; the status that the
-- client gets, and the chunks of the body, latest first.
pub record Writer : Type 0 where
  pub header : Header
  pub sent : Option Header
  pub status : Option ℕ
  pub chunks : List Text

abbrev pub fresh : Header → Writer
fresh header = record { header = header; sent = none; status = none; chunks = [] }

-- 1xx, except 101, announces and does not answer
abbrev pub is_informational : ℕ → Bool
is_informational code = leb 100 code && (leb code 199 && not (code == 101))

abbrev pub first {ℓ} : {A : Type ℓ} → Option A → A → Option A
first none a = some a
first (some old) a = some old

-- ResponseWriter.WriteHeader: the first final status counts, with the header of that moment
unfoldable pub writer_write_header : ℕ → Writer → Writer
writer_write_header code w =
    if is_informational code
    then w
    else record w { status = first w.status code; sent = first w.sent w.header }

-- ResponseWriter.Write
unfoldable pub writer_write : Text → Writer → Writer
writer_write chunk w = record w {
  status = first w.status 200;
  sent = first w.sent w.header;
  chunks = chunk ∷ w.chunks;
}

unfoldable pub writer_change_header : (Header → Header) → Writer → Writer
writer_change_header f w = record w { header = f w.header }

-- `ResponseWriter` is embedded: Write and Header go to it at once
pub record StatusRecorder : Type 0 where
  pub response_writer : Writer
  pub status : ℕ

unfoldable pub recorder_write_header : ℕ → StatusRecorder → StatusRecorder
recorder_write_header code sr = record {
  response_writer = writer_write_header code sr.response_writer;
  status = code;
}

unfoldable pub act : Action → StatusRecorder → StatusRecorder
act (write_header code) sr = recorder_write_header code sr
act (write chunk) sr = record sr { response_writer = writer_write chunk sr.response_writer }
act (change_header f) sr = record sr { response_writer = writer_change_header f sr.response_writer }

unfoldable pub run : List Action → StatusRecorder → StatusRecorder
run [] sr = sr
run (a ∷ rest) sr = run rest (act a sr)

unfoldable pub record_response : Writer → List Action → StatusRecorder
record_response w actions = run actions (record { response_writer = w; status = 200 })

-- net/http answers 200 where the handler said nothing
abbrev or_ok : Option ℕ → ℕ
or_ok none = 200
or_ok (some s) = s

abbrev pub client_status : Writer → ℕ
client_status w = or_ok w.status

-- the header as it was sent, or is at the end
abbrev sent_or : Option Header → Header → Header
sent_or none h = h
sent_or (some sent) h = sent

abbrev pub client_header : Writer → Header
client_header w = sent_or w.sent w.header

-- At most one WriteHeader, of a final status and before every Write.
abbrev pub OnlyWrites : List Action → Type 0
OnlyWrites [] = Unit {0}
OnlyWrites (write_header code ∷ rest) = ⊥
OnlyWrites (write chunk ∷ rest) = OnlyWrites rest
OnlyWrites (change_header f ∷ rest) = OnlyWrites rest

abbrev pub IsOrderly : List Action → Type 0
IsOrderly [] = Unit {0}
IsOrderly (write_header code ∷ rest) = (is_informational code ≡ false) × OnlyWrites rest
IsOrderly (write chunk ∷ rest) = OnlyWrites rest
IsOrderly (change_header f ∷ rest) = IsOrderly rest

-- No change of the header touches this name.
abbrev pub Leaves : Text → List Action → Type 0
Leaves name [] = Unit {0}
Leaves name (write_header code ∷ rest) = Leaves name rest
Leaves name (write chunk ∷ rest) = Leaves name rest
Leaves name (change_header f ∷ rest) = ((h : Header) → f h name ≡ h name) × Leaves name rest

writes_only :
    (actions : List Action) (w : Writer) (s n : ℕ)
    → OnlyWrites actions
    → w.status ≡ some s
    → ((run actions (record { response_writer = w; status = n })).response_writer.status ≡ some s)
      × ((run actions (record { response_writer = w; status = n })).status ≡ n)
unfolding run act writer_write writer_change_header
writes_only [] w s n o e = (e, refl)
writes_only (write_header code ∷ rest) w s n o e = absurd o
writes_only (write chunk ∷ rest) w s n o e =
    writes_only rest (writer_write chunk w) s n o (ap (λ x. first x 200) e)
writes_only (change_header f ∷ rest) w s n o e = writes_only rest (writer_change_header f w) s n o e

started :
    (code : ℕ) (w : Writer)
    → is_informational code ≡ false
    → w.status ≡ none
    → (writer_write_header code w).status ≡ some code
unfolding writer_write_header
started code w final e = rw final (ap (λ x. first x code) e)

-- What is recorded of such a handler is what the client gets.
pub orderly_recorded :
    (actions : List Action) (w : Writer)
    → w.status ≡ none
    → IsOrderly actions
    → (record_response w actions).status ≡ client_status (record_response w actions).response_writer
unfolding record_response run act recorder_write_header writer_write writer_change_header
orderly_recorded [] w e o = sym (ap or_ok e)
orderly_recorded (write_header code ∷ rest) w e (final, o) =
    let (seen, logged) =
      writes_only rest (writer_write_header code w) code code o (started code w final e) in
    logged ∙ sym (ap or_ok seen)
orderly_recorded (write chunk ∷ rest) w e o =
    let (seen, logged) =
      writes_only rest (writer_write chunk w) 200 200 o (ap (λ x. first x 200) e) in
    logged ∙ sym (ap or_ok seen)
orderly_recorded (change_header f ∷ rest) w e o =
    orderly_recorded rest (writer_change_header f w) e o

-- the client gets this value, if the header is sent as it stands, and if it was sent
abbrev SentAs : Text → Text → Option Header → Type 0
SentAs name value none = Unit {0}
SentAs name value (some h) = h name ≡ some value

first-SentAs :
    (name value : Text) (o : Option Header) (h : Header)
    → SentAs name value o
    → h name ≡ some value
    → SentAs name value (first o h)
first-SentAs name value none h s e = e
first-SentAs name value (some old) h s e = s

sent_or-SentAs :
    (name value : Text) (o : Option Header) (h : Header)
    → SentAs name value o
    → h name ≡ some value
    → sent_or o h name ≡ some value
sent_or-SentAs name value none h s e = e
sent_or-SentAs name value (some old) h s e = s

write_header-SentAs :
    (name value : Text) (code : ℕ) (w : Writer)
    → w.header name ≡ some value
    → SentAs name value w.sent
    → ((writer_write_header code w).header name ≡ some value)
      × SentAs name value (writer_write_header code w).sent
unfolding writer_write_header
write_header-SentAs name value code w e s = elim (Bool-cases (is_informational code)) [
  | inl announces ↦ rw announces (e, s)
  | inr final ↦ rw final (e, first-SentAs name value w.sent w.header s e)
]

-- A name that the handler leaves alone reaches the client as it was.
pub record_response-header :
    (name value : Text) (actions : List Action) (w : Writer) (n : ℕ)
    → Leaves name actions
    → w.header name ≡ some value
    → SentAs name value w.sent
    → client_header (run actions (record { response_writer = w; status = n })).response_writer name
      ≡ some value
unfolding run act recorder_write_header writer_write writer_change_header
record_response-header name value [] w n l e s = sent_or-SentAs name value w.sent w.header s e
record_response-header name value (write chunk ∷ rest) w n l e s =
    record_response-header name value rest (writer_write chunk w) n l e
      (first-SentAs name value w.sent w.header s e)
record_response-header name value (change_header f ∷ rest) w n (same_value, l) e s =
    record_response-header name value rest (writer_change_header f w) n l (same_value w.header ∙ e)
      s
record_response-header name value (write_header code ∷ rest) w n l e s =
    let (e', s') = write_header-SentAs name value code w e s in
    record_response-header name value rest (writer_write_header code w) code l e' s'
