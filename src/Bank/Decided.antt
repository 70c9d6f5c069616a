-- ===== src/Bank/Decided.antt =====
-- bantam/api.py: what a decision of a customer's identity is, and why it is refused.
use bantam_bank.Prelude.{◌≡◌, ◌⊎◌, ◌==◌, true, any, List, [], ◌∷◌}
use bantam_bank.Prelude.Members.{In}
use bantam_bank.Prelude.Text.{Text, codes, strip, upper}
use bantam_bank.Domain.{Uuid, Principal, KycStatus}
use bantam_bank.Errors.{Error, Result, err}
use bantam_bank.Db.{
  Db, Customer, OutboxRow, OutboxStatus, AuditEvent, Payload, Actor, Resource, MetaValue,
}
use bantam_bank.Bank.Reply.{Http, Stamp, http_error}
use Prim.Native.String.{String}

-- The status that each of the four words gives.
abbrev pub IsDecision : Text → KycStatus → Type 0
IsDecision text status =
    let word = upper (strip text) in
    (((word ≡ codes "APPROVE") ⊎ (word ≡ codes "KYC_VERIFIED")) × (status ≡ KycStatus.kyc_verified))
    ⊎ (((word ≡ codes "REJECT") ⊎ (word ≡ codes "KYC_REJECTED"))
        × (status ≡ KycStatus.kyc_rejected))

-- The event that is sent for a status.
abbrev pub IsEventOf : KycStatus → String → Type 0
IsEventOf status name =
    ((status ≡ KycStatus.kyc_verified) × (name ≡ "customer.kyc_verified.v1"))
    ⊎ ((status ≡ KycStatus.kyc_rejected) × (name ≡ "customer.kyc_rejected.v1"))

abbrev pub IsWaiting : Uuid → Customer → Type 0
IsWaiting id c = (c.customer_id ≡ id) × (c.kyc_status ≡ KycStatus.pending_review)

-- Row by row, the customer who waited has the status, and the others are as they were.
abbrev pub Settles : Uuid → KycStatus → List Customer → List Customer → Type 0
Settles id status [] [] = Unit {0}
Settles id status [] (d ∷ ds) = ⊥
Settles id status (c ∷ cs) [] = ⊥
Settles id status (c ∷ cs) (d ∷ ds) =
    ((IsWaiting id c × (d ≡ record c { kyc_status = status })) ⊎ ((¬ IsWaiting id c) × (d ≡ c)))
    × Settles id status cs ds

-- The event that was stored.
pub record IsEvent (id : Uuid) (status : KycStatus) (o : OutboxRow) : Type 0 where
  pub kind : IsEventOf status o.event_type
  pub aggregate_type : o.aggregate_type ≡ "customer"
  pub aggregate_id : o.aggregate_id ≡ id
  pub payload : o.payload ≡ Payload.customer_kyc id status
  pub unsent : o.status ≡ OutboxStatus.pending

-- The audit row that was stored.
pub record IsNoted (h : Http) (p : Principal) (id : Uuid) (status : KycStatus) (reason : Text)
    (a : AuditEvent) : Type 0 where
  pub actor : a.actor_id ≡ Actor.user p.user_id
  pub action : a.action ≡ "KYC_DECIDED"
  pub resource_type : a.resource_type ≡ "customer"
  pub resource : a.resource_id ≡ Resource.row id
  pub request : a.request_id ≡ h.request_id
  pub metadata :
      a.metadata ≡ (("decision", MetaValue.kyc status) ∷ ("reason", MetaValue.string reason) ∷ [])

-- What a decision of a customer's identity has changed.
pub record Decided (h : Http) (p : Principal) (id : Uuid) (status : KycStatus) (reason : Text)
    (db db' : Db) : Type 0 where
  pub waited : (c : Customer) × In c db.customers × IsWaiting id c
  pub customers : Settles id status db.customers db'.customers
  pub event : (o : OutboxRow) × (db'.outbox ≡ o ∷ db.outbox) × IsEvent id status o
  pub noted : (a : AuditEvent) × (db'.audit ≡ a ∷ db.audit) × IsNoted h p id status reason a
  pub frame : db' ≡ record db { customers = db'.customers; outbox = db'.outbox; audit = db'.audit }

-- Why a decision is refused.
pub data IsRefused (scope : Result (Unit {0})) (id : Uuid) (text : Text) (s : Stamp) (db : Db)
    : Error → Type 0 where
  by_scope : (e : Error) → scope ≡ err e → IsRefused scope id text s db e
  unknown_word :
      ((status : KycStatus) → ¬ IsDecision text status)
      → IsRefused scope id text s db (http_error "INVALID_DECISION" 422)
  none_waits :
      ((c : Customer) → In c db.customers → ¬ IsWaiting id c)
      → IsRefused scope id text s db (http_error "INVALID_KYC_STATE" 409)
  taken :
      (any (λ o. o.outbox_event_id == s.outbox_event_id) db.outbox ≡ true)
        ⊎ (any (λ a. a.audit_event_id == s.audit_event_id) db.audit ≡ true)
      → IsRefused scope id text s db Error.unique_violation
