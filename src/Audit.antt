-- ===== src/Audit.antt =====
-- bantam/audit.py: `record` appends one row inside the caller's transaction.
use bantam_bank.Prelude.{Option, none, some, List, ◌∷◌}
use bantam_bank.Prelude.Text.{Text}
use bantam_bank.Domain.{Uuid, Time}
use bantam_bank.Db.{Db, AuditEvent, Actor, Resource, MetaValue}
use Prim.Native.String.{String}

-- The keyword arguments of `record`.
pub record AuditFields : Type 0 where
  pub actor_type : String
  pub actor_id : Actor
  pub action : String
  pub resource_type : String
  pub resource_id : Resource
  pub request_id : Option Uuid
  pub correlation_id : Option Uuid
  pub ip_address : Option Text
  pub user_agent : Option Text
  pub metadata : List (String × MetaValue)

abbrev or_else : Option Uuid → Uuid → Uuid
or_else (some a) b = a
or_else none b = b

-- `new_request` and `event_id` are the two draws of `uuid4`.
unfoldable pub audit_row : AuditFields → (new_request event_id : Uuid) → Time → AuditEvent
audit_row f new_request event_id now =
    let request_id = or_else f.request_id new_request in
    record {
      audit_event_id = event_id;
      actor_type = f.actor_type;
      actor_id = f.actor_id;
      action = f.action;
      resource_type = f.resource_type;
      resource_id = f.resource_id;
      request_id = request_id;
      correlation_id = or_else f.correlation_id request_id;
      ip_address = f.ip_address;
      user_agent = f.user_agent;
      metadata = f.metadata;
      created_at = now;
    }

abbrev pub record_audit : AuditFields → (new_request event_id : Uuid) → Time → Db → Db
record_audit f new_request event_id now db = record db {
  audit = audit_row f new_request event_id now ∷ db.audit;
}
