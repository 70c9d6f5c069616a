-- ===== src/Bank/Reply.antt =====
-- bantam/api.py: `request_audit`, and how a handler ends. The pool's connections commit each
-- statement by itself outside a `connection.transaction()` block.
use bantam_bank.Prelude.{ℕ, zero, suc, Option, none, some, List, [], ◌∷◌}
use bantam_bank.Prelude.Text.{Text}
use bantam_bank.Domain.{Uuid, Time}
use bantam_bank.Errors.{BantamError, Error, bantam, Result, ok, err}
use bantam_bank.Db.{Db, Actor, Resource, MetaValue}
use bantam_bank.Audit.{AuditFields}
use Prim.Native.String.{String}

-- What a handler reads of its request beside the input: the identifier that the middleware gave it,
-- the client's address and the header `User-Agent`.
pub record Http : Type 0 where
  pub request_id : Uuid
  pub ip_address : Text
  pub user_agent : Text

abbrev pub take_codes : ℕ → Text → Text
take_codes zero text = []
take_codes (suc n) [] = []
take_codes (suc n) (c ∷ text) = c ∷ take_codes n text

-- `text[:512] or None`
abbrev bounded : Text → Option Text
bounded [] = none
bounded (c ∷ text) = some (take_codes 512 (c ∷ text))

-- `request_audit`, for an actor who is a user.
abbrev pub request_audit :
    Http
    → (actor_id : Uuid) → (action resource_type : String) → Resource
    → List (String × MetaValue)
    → AuditFields
request_audit http actor_id action resource_type resource_id metadata = record {
  actor_type = "USER";
  actor_id = Actor.user actor_id;
  action = action;
  resource_type = resource_type;
  resource_id = resource_id;
  request_id = some http.request_id;
  correlation_id = some http.request_id;
  ip_address = some http.ip_address;
  user_agent = bounded http.user_agent;
  metadata = metadata;
}

-- The draws of a handler, and the time at which its database transaction began.
pub record Stamp : Type 0 where
  pub new_id : Uuid
  pub outbox_event_id : Uuid
  pub audit_event_id : Uuid
  pub now : Time

abbrev pub Reply : Type 0
Reply = Result (Unit {0}) × Db

-- What a block gives: its tables if it ends well, those before it if it raises.
abbrev pub commit : Db → Result Db → Reply
commit before (ok after) = (ok tt, after)
commit before (err e) = (err e, before)

-- A statement that is committed by itself, and the block that follows.
abbrev pub commit_then : Db → Result Db → (Db → Result Db) → Reply
commit_then before (ok middle) rest = commit middle (rest middle)
commit_then before (err e) rest = (err e, before)

-- The first error that a guard raised stops the handler.
abbrev pub guarded : Result (Unit {0}) → Db → Reply → Reply
guarded (ok _) db reply = reply
guarded (err e) db reply = (err e, db)

abbrev pub http_error : String → ℕ → Error
http_error code status = bantam (BantamError.custom code status)
