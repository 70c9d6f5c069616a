-- ===== src/Outbox.antt =====
-- bantam/events.py: `OutboxPublisher`, one publisher at a time. `send` stands for the backend's
-- `publish`: none where it acknowledges, else the text of the exception. Within a call the readings
-- of the database's clock are one time.
use bantam_bank.Prelude.{
  ℕ, suc, zero, ◌+◌, Bool, true, false, not, ◌&&◌, ◌==◌, ltb, leb, length, any, update, Option,
  none, some, List, [], ◌∷◌, if◌then◌else◌,
}
use bantam_bank.Prelude.Text.{Text, codes}
use bantam_bank.Domain.{Uuid, Time}
use bantam_bank.Errors.{Outcome, ok, err}
use bantam_bank.Db.{OutboxRow, OutboxStatus}
pub mod Publishing
pub mod Draining
pub mod Liveness
pub mod Tests

abbrev pub is_pending : OutboxStatus → Bool
is_pending OutboxStatus.pending = true
is_pending _ = false

abbrev pub is_publishing : OutboxStatus → Bool
is_publishing OutboxStatus.publishing = true
is_publishing _ = false

abbrev pub is_row : Uuid → OutboxRow → Bool
is_row id o = o.outbox_event_id == id

-- One minute.
abbrev pub claim_age : Time
claim_age = 60000000

-- SQL's `claimed_at < now() - interval '1 minute'`: NULL does not pass.
abbrev pub claimed_before : Time → Option Time → Bool
claimed_before now none = false
claimed_before now (some t) = ltb (t + claim_age) now

abbrev pub recovered : OutboxRow → OutboxRow
recovered o = record o {
  status = OutboxStatus.pending;
  claimed_at = none;
  last_error = some (codes "publisher claim expired before acknowledgement");
}

-- `_recover_expired_claims`
unfoldable pub recover_expired_claims : Time → List OutboxRow → List OutboxRow
recover_expired_claims now rows =
    update (λ o. is_publishing o.status && claimed_before now o.claimed_at) recovered rows

-- The older of a row and of the oldest pending one after it.
abbrev pub older : OutboxRow → Option OutboxRow → Option OutboxRow
older o none = some o
older o (some p) = if ltb o.created_at p.created_at then some o else some p

-- The first pending row by `created_at`.
unfoldable pub oldest : List OutboxRow → Option OutboxRow
oldest [] = none
oldest (o ∷ rows) = let rest = oldest rows in if is_pending o.status then older o rest else rest

abbrev pub claimed : Time → OutboxRow → OutboxRow
claimed now o = record o {
  status = OutboxStatus.publishing;
  publish_attempts = suc o.publish_attempts;
  claimed_at = some now;
}

-- `_claim`: the row as it was read, and the table after.
unfoldable pub claim : Time → List OutboxRow → Option (OutboxRow × List OutboxRow)
claim now rows = elim (oldest rows) [
  | none ↦ none
  | some o ↦ some (o, update (is_row o.outbox_event_id) (claimed now) rows)
]

abbrev pub take_codes : ℕ → Text → Text
take_codes zero text = []
take_codes (suc n) [] = []
take_codes (suc n) (c ∷ text) = c ∷ take_codes n text

abbrev pub released : Text → OutboxRow → OutboxRow
released error o = record o {
  status = OutboxStatus.pending;
  claimed_at = none;
  last_error = some (take_codes 2000 error);
}

-- `_release`
unfoldable pub release : Uuid → Text → List OutboxRow → List OutboxRow
release id error rows = update (is_row id) (released error) rows

abbrev pub acknowledged : Time → OutboxRow → OutboxRow
acknowledged now o = record o {
  status = OutboxStatus.published;
  published_at = some now;
  claimed_at = none;
  last_error = none;
}

-- `_mark_published`
unfoldable pub mark_published : Time → Uuid → List OutboxRow → List OutboxRow
mark_published now id rows = update (is_row id) (acknowledged now) rows

-- The loop of `publish_batch` with `left` turns to go and `published` events sent: the number it
-- returns or the error it raises, and the table.
unfoldable pub publish_loop :
    (send : OutboxRow → Option Text)
    → Time
    → (left published : ℕ) → List OutboxRow
    → Outcome Text ℕ × List OutboxRow
publish_loop send now zero published rows = (ok published, rows)
publish_loop send now (suc left) published rows = elim (claim now rows) [
  | none ↦ (ok published, rows)
  | some (event, taken) ↦ elim (send event) [
    | some error ↦ (err error, release event.outbox_event_id error taken)
    | none ↦
        publish_loop send now left (suc published) (mark_published now event.outbox_event_id taken)
  ]
]

-- `publish_batch`
unfoldable pub publish_batch :
    (send : OutboxRow → Option Text) → Time → List OutboxRow → Outcome Text ℕ × List OutboxRow
publish_batch send now rows = publish_loop send now 50 0 (recover_expired_claims now rows)

-- What a turn of `run` meets: the backend and the clock.
pub record Turn : Type 0 where
  pub send : OutboxRow → Option Text
  pub now : Time

-- `run`, for the turns before `stop` is set. A batch's exception is logged, and the loop goes on.
unfoldable pub run : List Turn → List OutboxRow → List OutboxRow
unfolding publish_batch
run [] rows = rows
run (t ∷ turns) rows = run turns (publish_batch t.send t.now rows).1
