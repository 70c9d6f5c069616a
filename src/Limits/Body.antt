-- ===== src/Limits/Body.antt =====
-- bantam/security.py: RequestBodyLimitMiddleware, over the messages that `receive` gives in order.
-- `int` of the header is a parameter.
use bantam_bank.Prelude.{
  ℕ, ℤ, pos, ◌+◌, ◌≤◌, ◌<◌, ◌≡◌, ◌↔◌, ◌∙◌, sym, ap, subst, refl, leb, ltb, ltb_ℤ, length,
  length-append, Bool, true, false, Option, none, some, List, [], ◌∷◌, ◌++◌, if◌then◌else◌, arith,
  tests, Bool-cases, inl, inr,
}
use bantam_bank.Prelude.Text.{Text}
use Prim.Native.String.{String}

-- An ASGI message of a request.
pub data Message : Type 0 where
  disconnect : Message
  request : (body : Text) (more_body : Bool) → Message
  other : Message

-- What becomes of the request: an error response, nothing more, the application with the whole
-- body, or the wait for a further message.
pub data Handled : Type 0 where
  rejected : (status : ℕ) (code : String) → Handled
  gone : Handled
  delivered : Text → Handled
  waiting : Handled

abbrev pub too_large : Handled
too_large = Handled.rejected 413 "REQUEST_TOO_LARGE"

-- The loop.
unfoldable pub read_body : (max_bytes : ℕ) → (body : Text) → List Message → Handled
read_body max_bytes body [] = Handled.waiting
read_body max_bytes body (Message.disconnect ∷ messages) = Handled.gone
read_body max_bytes body (Message.other ∷ messages) = read_body max_bytes body messages
read_body max_bytes body (Message.request chunk more_body ∷ messages) =
    let whole = body ++ chunk in
    let rest = read_body max_bytes whole messages in
    if ltb max_bytes (length whole)
    then too_large
    else if more_body
    then rest
    else Handled.delivered whole

-- The test on the header `Content-Length`: an error response, or none.
unfoldable pub declared_problem :
    (int : Text → Option ℤ) → (max_bytes : ℕ) → (raw_length : Option Text) → Option Handled
declared_problem int max_bytes none = none
declared_problem int max_bytes (some raw) = elim (int raw) [
  | none ↦ some (Handled.rejected 400 "INVALID_CONTENT_LENGTH")
  | some declared ↦
      if ltb_ℤ declared (pos 0)
      then some (Handled.rejected 400 "INVALID_CONTENT_LENGTH")
      else if ltb_ℤ (pos max_bytes) declared
      then some too_large
      else none
]

-- `__call__` of a scope of type `http`.
unfoldable pub limit_body :
    (int : Text → Option ℤ) → (max_bytes : ℕ) → (raw_length : Option Text) → List Message → Handled
unfolding read_body declared_problem
limit_body int max_bytes raw_length messages = elim (declared_problem int max_bytes raw_length) [
  | some problem ↦ problem
  | none ↦ read_body max_bytes [] messages
]

-- The body that a client sends: the chunks up to the one that says that none follows.
pub data Arrives : List Message → Text → Type 0 where
  last : (chunk : Text) (rest : List Message) → Arrives (Message.request chunk false ∷ rest) chunk
  more :
      (chunk tail : Text) (messages : List Message)
      → Arrives messages tail
      → Arrives (Message.request chunk true ∷ messages) (chunk ++ tail)
  skip :
      (tail : Text) (messages : List Message)
      → Arrives messages tail
      → Arrives (Message.other ∷ messages) tail

append_assoc : (a b c : Text) → (a ++ b) ++ c ≡ a ++ (b ++ c)
append_assoc [] b c = refl
append_assoc (x ∷ a) b c = ap (λ t. x ∷ t) (append_assoc a b c)

-- What is delivered has arrived, and fits.
read_body-delivered :
    (max_bytes : ℕ) (body whole : Text) (messages : List Message)
    → read_body max_bytes body messages ≡ Handled.delivered whole
    → (tail : Text) × (whole ≡ body ++ tail) × Arrives messages tail × (length whole ≤ max_bytes)
unfolding read_body
read_body-delivered max_bytes body whole [] e = absurd (ground (arith, e))
read_body-delivered max_bytes body whole (Message.disconnect ∷ messages) e =
    absurd (ground (arith, e))
read_body-delivered max_bytes body whole (Message.other ∷ messages) e =
    let (tail, parts, arrives, fits) = read_body-delivered max_bytes body whole messages e in
    (tail, parts, skip tail messages arrives, fits)
read_body-delivered max_bytes body whole (Message.request chunk false ∷ messages) e =
    elim (Bool-cases (ltb max_bytes (length (body ++ chunk)))) [
      | inl over ↦ absurd (ground (arith, over, e))
      | inr room ↦
          let same : body ++ chunk ≡ whole = ground (arith, room, e) in
          (
            chunk,
            sym same,
            last chunk messages,
            grind (tests, room, ap (λ (t : Text). length t) same),
          )
    ]
read_body-delivered max_bytes body whole (Message.request chunk true ∷ messages) e =
    elim (Bool-cases (ltb max_bytes (length (body ++ chunk)))) [
      | inl over ↦ absurd (ground (arith, over, e))
      | inr room ↦
          let (tail, parts, arrives, fits) =
            read_body-delivered max_bytes (body ++ chunk) whole messages
              (ground (arith, room, e)) in
          (
            chunk ++ tail,
            parts ∙ append_assoc body chunk tail,
            more chunk tail messages arrives,
            fits,
          )
    ]

-- What has arrived is delivered if it fits, and is too large if it does not.
read_body-Arrives :
    (max_bytes : ℕ) (body tail : Text) (messages : List Message)
    → Arrives messages tail
    → read_body max_bytes body messages ≡ (
        if leb (length (body ++ tail)) max_bytes
        then Handled.delivered (body ++ tail)
        else too_large)
unfolding read_body
read_body-Arrives max_bytes body _ _ (last chunk rest) = grind tests
read_body-Arrives max_bytes body _ _ (more chunk tail messages arrives) =
    let rest = read_body-Arrives max_bytes (body ++ chunk) tail messages arrives in
    let assoc = append_assoc body chunk tail in
    elim (Bool-cases (ltb max_bytes (length (body ++ chunk)))) [
      | inr room ↦ rw room (
          rest
          ∙ ap (λ t. if leb (length t) max_bytes then Handled.delivered t else too_large) assoc)
      | inl over ↦
          let longer : length (body ++ (chunk ++ tail)) ≡ length (body ++ chunk) + length tail =
            ap (λ (t : Text). length t) (sym assoc) ∙ length-append (body ++ chunk) tail in
          rw over (grind (tests, over, longer))
    ]
read_body-Arrives max_bytes body _ _ (skip tail messages arrives) =
    read_body-Arrives max_bytes body tail messages arrives

-- With a declared length that is absent, or a number from 0 to the limit, the body that a client
-- sends reaches the application exactly when it is no longer than the limit, and then as sent; a
-- longer one is answered with 413. Nothing else reaches the application.
pub limit_body-Arrives :
    (int : Text → Option ℤ) (max_bytes : ℕ) (raw_length : Option Text) (messages : List Message)
    → declared_problem int max_bytes raw_length ≡ none
    → let handled = limit_body int max_bytes raw_length messages in
      ((body : Text)
        → (handled ≡ Handled.delivered body) ↔ (Arrives messages body × (length body ≤ max_bytes)))
      × ((body : Text) → Arrives messages body → max_bytes < length body → handled ≡ too_large)
unfolding limit_body
limit_body-Arrives int max_bytes raw_length messages fine =
    rw (limit_body, fine)
      (
        (λ body. (
          (λ e.
              let (tail, same, arrives, fits) = read_body-delivered max_bytes [] body messages e in
              (subst (Arrives messages) (sym same) arrives, fits)),
          (λ (arrives, fits).
              read_body-Arrives max_bytes [] body messages arrives ∙ grind (tests, fits)),
        )),
        (λ body arrives over.
            read_body-Arrives max_bytes [] body messages arrives ∙ grind (tests, over)),
      )
