-- ===== src/Outbox/Publishing.antt =====
-- What a batch of the publisher does to the table of events.
use bantam_bank.Prelude.{
  ℕ, suc, zero, ◌+◌, ◌≤◌, ◌<◌, ◌≡◌, ◌≢◌, refl, true, false, ltb, update, All, Option, none, some,
  Option-cases, Bool-cases, inl, inr, List, [], ◌∷◌, arith,
}
use bantam_bank.Prelude.Text.{Text}
use bantam_bank.Domain.{Uuid, Time}
use bantam_bank.Errors.{ok}
use bantam_bank.Db.{OutboxRow, OutboxStatus}
use bantam_bank.Outbox
use bantam_bank.Outbox.{
  is_pending, is_publishing, is_row, claimed, released, acknowledged, recovered, claimed_before,
}

-- Every row of the event is published.
abbrev pub IsPublished : Uuid → List OutboxRow → Type 0
IsPublished id rows = All (λ o. is_row id o ≡ true → o.status ≡ OutboxStatus.published) rows

abbrev StaysPublished : Uuid → OutboxRow → Type 0
StaysPublished id o = is_row id o ≡ true → o.status ≡ OutboxStatus.published

-- The row that is claimed is pending, and what holds of all rows holds of it.
oldest-All :
    (P : OutboxRow → Type 0) (rows : List OutboxRow) (o : OutboxRow)
    → Outbox.oldest rows ≡ some o
    → All P rows
    → P o × (is_pending o.status ≡ true)
unfolding Outbox.oldest
oldest-All P [] o e h = absurd (ground arith)
oldest-All P (p ∷ rows) o e (h, hs) = elim (Bool-cases (is_pending p.status)) [
  | inr other ↦ oldest-All P rows o (ground arith) hs
  | inl here ↦ elim (Option-cases (Outbox.oldest rows)) [
    | inl last ↦
        let both : P p × (is_pending p.status ≡ true) = (h, here) in
        let same : p ≡ o = ground arith in rw same at both
    | inr (q, found) ↦ elim (Bool-cases (ltb p.created_at q.created_at)) [
      | inl first ↦
          let both : P p × (is_pending p.status ≡ true) = (h, here) in
          let same : p ≡ o = ground arith in rw same at both
      | inr later ↦ let same : q ≡ o = ground arith in rw same at (oldest-All P rows q found hs)
    ]
  ]
]

-- An UPDATE of another row keeps the published row.
update-IsPublished :
    (id other : Uuid) (f : OutboxRow → OutboxRow) (rows : List OutboxRow)
    → other ≢ id
    → ((o : OutboxRow) → (f o).outbox_event_id ≡ o.outbox_event_id)
    → IsPublished id rows
    → IsPublished id (update (is_row other) f rows)
update-IsPublished id other f [] differ keeps h = tt
update-IsPublished id other f (o ∷ rows) differ keeps (h, hs) =
    (ground (arith, keeps o), update-IsPublished id other f rows differ keeps hs)

recover-IsPublished :
    (id : Uuid) (now : Time) (rows : List OutboxRow)
    → IsPublished id rows
    → IsPublished id (Outbox.recover_expired_claims now rows)
unfolding Outbox.recover_expired_claims
recover-IsPublished id now [] h = tt
recover-IsPublished id now (o ∷ rows) (h, hs) = (ground arith, recover-IsPublished id now rows hs)

claimed_other :
    (id : Uuid) (rows : List OutboxRow) (o : OutboxRow)
    → Outbox.oldest rows ≡ some o
    → IsPublished id rows
    → o.outbox_event_id ≢ id
claimed_other id rows o e h same =
    let (published, pending) = oldest-All (StaysPublished id) rows o e h in
    ground (arith, published)

loop-IsPublished :
    (send : OutboxRow → Option Text) (now : Time) (left published : ℕ) (rows : List OutboxRow)
    (id : Uuid)
    → IsPublished id rows
    → IsPublished id (Outbox.publish_loop send now left published rows).1
unfolding Outbox.publish_loop Outbox.claim Outbox.release Outbox.mark_published
loop-IsPublished send now zero published rows id h = h
loop-IsPublished send now (suc left) published rows id h =
    elim (Option-cases (Outbox.oldest rows)) [
      | inl drained ↦ rw (Outbox.publish_loop, Outbox.claim, drained) h
      | inr (o, found) ↦
          let differ = claimed_other id rows o found h in
          let taken =
            update-IsPublished id o.outbox_event_id (claimed now) rows differ (λ p. refl) h in
          elim (Option-cases (send o)) [
            | inr (error, failed) ↦
                rw (Outbox.publish_loop, Outbox.claim, found, failed)
                  (update-IsPublished id o.outbox_event_id (released error)
                    (update (is_row o.outbox_event_id) (claimed now) rows) differ (λ p. refl) taken)
            | inl sent ↦
                rw (Outbox.publish_loop, Outbox.claim, found, sent)
                  (loop-IsPublished send now left (suc published)
                    (Outbox.mark_published now o.outbox_event_id
                      (update (is_row o.outbox_event_id) (claimed now) rows))
                    id
                    (update-IsPublished id o.outbox_event_id (acknowledged now)
                      (update (is_row o.outbox_event_id) (claimed now) rows) differ (λ p. refl)
                      taken))
          ]
    ]

-- A published event stays published through publish_batch, whatever the backend answers.
pub publish_batch-IsPublished :
    (send : OutboxRow → Option Text) (now : Time) (rows : List OutboxRow) (id : Uuid)
    → IsPublished id rows
    → IsPublished id (Outbox.publish_batch send now rows).1
unfolding Outbox.publish_batch
publish_batch-IsPublished send now rows id h =
    loop-IsPublished send now 50 0 (Outbox.recover_expired_claims now rows) id
      (recover-IsPublished id now rows h)

-- How a loop that returns ends: it took all its turns, or nothing was pending any more.
loop_drains :
    (send : OutboxRow → Option Text) (now : Time) (left published : ℕ) (rows rows' : List OutboxRow)
    (n : ℕ)
    → Outbox.publish_loop send now left published rows ≡ (ok n, rows')
    → (n ≤ left + published) × (n < left + published → Outbox.oldest rows' ≡ none)
unfolding Outbox.publish_loop Outbox.claim
loop_drains send now zero published rows rows' n e = (ground arith, (λ less. absurd (ground arith)))
loop_drains send now (suc left) published rows rows' n e =
    elim (Option-cases (Outbox.oldest rows)) [
      | inl drained ↦ (ground arith, (λ less. ground arith))
      | inr (o, found) ↦ elim (Option-cases (send o)) [
        | inr (error, failed) ↦ absurd (ground arith)
        | inl sent ↦
            let (bound, ends) =
              loop_drains send now left (suc published)
                (Outbox.mark_published now o.outbox_event_id
                  (update (is_row o.outbox_event_id) (claimed now) rows))
                rows' n (ground arith) in
            (omega arith, (λ less. ends (omega arith)))
      ]
    ]

pub none_pending :
    (rows : List OutboxRow)
    → Outbox.oldest rows ≡ none
    → All (λ o. is_pending o.status ≡ false) rows
unfolding Outbox.oldest
none_pending [] e = tt
none_pending (o ∷ rows) e = elim (Bool-cases (is_pending o.status)) [
  | inl pending ↦ absurd (ground arith)
  | inr other ↦ (other, none_pending rows (ground arith))
]

-- Where publish_batch returns a number of events, it is at most 50, and below 50 no event is
-- pending afterwards.
pub publish_batch_drains :
    (send : OutboxRow → Option Text) (now : Time) (rows rows' : List OutboxRow) (n : ℕ)
    → Outbox.publish_batch send now rows ≡ (ok n, rows')
    → (n ≤ 50) × (n < 50 → All (λ o. is_pending o.status ≡ false) rows')
unfolding Outbox.publish_batch
publish_batch_drains send now rows rows' n e =
    let (bound, ends) =
      loop_drains send now 50 0 (Outbox.recover_expired_claims now rows) rows' n e in
    (bound, (λ less. none_pending rows' (ends less)))
