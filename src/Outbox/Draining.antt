-- ===== src/Outbox/Draining.antt =====
-- bantam/events.py: what the loop of the publisher comes to once the backend accepts.
use bantam_bank.Prelude.{
  ℕ, suc, zero, ◌+◌, ◌-◌, ◌≤◌, ◌<◌, ◌≡◌, ◌⊎◌, refl, Bool, true, false, ◌||◌, ◌&&◌, ltb, update,
  count, All, Option, none, some, Option-cases, Bool-cases, inl, inr, List, [], ◌∷◌, arith, subst,
  ==_iff,
}
use bantam_bank.Prelude.Text.{Text}
use bantam_bank.Domain.{Uuid, Time}
use bantam_bank.Db.{OutboxRow}
use bantam_bank.Outbox.Publishing.{none_pending}
use bantam_bank.Outbox
use bantam_bank.Outbox.{
  is_pending, is_publishing, is_row, claimed, released, acknowledged, recovered, claimed_before,
  claim_age, Turn,
}

-- The row has still to be published.
abbrev pub is_unsent : OutboxRow → Bool
is_unsent o = is_pending o.status || is_publishing o.status

abbrev pub IsIdle : OutboxRow → Type 0
IsIdle o = is_publishing o.status ≡ false

-- A claimed row was claimed, at the latest, at the time.
abbrev pub IsClaimedBy : Time → OutboxRow → Type 0
IsClaimedBy c o =
    (is_publishing o.status ≡ false) ⊎ ((t : Time) × (o.claimed_at ≡ some t) × (t ≤ c))

-- The table after a claim of the event and its acknowledgement.
abbrev pub sent_on : Time → Uuid → List OutboxRow → List OutboxRow
sent_on now id rows = Outbox.mark_published now id (update (is_row id) (claimed now) rows)

count-sent_on :
    (now : Time) (id : Uuid) (rows : List OutboxRow)
    → count is_unsent (sent_on now id rows) ≤ count is_unsent rows
unfolding Outbox.mark_published
count-sent_on now id [] = ground arith
count-sent_on now id (o ∷ rows) = ground (arith, count-sent_on now id rows)

count-sent_on_head :
    (now : Time) (o : OutboxRow) (rows : List OutboxRow)
    → is_pending o.status ≡ true
    → count is_unsent (sent_on now o.outbox_event_id (o ∷ rows)) < count is_unsent (o ∷ rows)
unfolding Outbox.mark_published
count-sent_on_head now o rows pending =
    let own : is_row o.outbox_event_id o ≡ true =
      (==_iff o.outbox_event_id o.outbox_event_id).1 refl in
    let fewer = count-sent_on now o.outbox_event_id rows in ground (arith, own, pending, fewer)

count-sent_on-oldest :
    (now : Time) (rows : List OutboxRow) (o : OutboxRow)
    → Outbox.oldest rows ≡ some o
    → count is_unsent (sent_on now o.outbox_event_id rows) < count is_unsent rows
unfolding Outbox.oldest Outbox.mark_published
count-sent_on-oldest now [] o e = absurd (ground (arith, e))
count-sent_on-oldest now (p ∷ rows) o e = elim (Bool-cases (is_pending p.status)) [
  | inr other ↦ ground (arith, other, e, count-sent_on-oldest now rows o)
  | inl here ↦ elim (Option-cases (Outbox.oldest rows)) [
    | inl last ↦
        let same : p ≡ o = ground (arith, here, last, e) in
        subst
          (λ r.
            count is_unsent (sent_on now r.outbox_event_id (p ∷ rows)) < count is_unsent (p ∷ rows))
          same (count-sent_on_head now p rows here)
    | inr (q, found) ↦ elim (Bool-cases (ltb p.created_at q.created_at)) [
      | inl first ↦
          let same : p ≡ o = ground (arith, here, found, first, e) in
          subst
            (λ r.
              count is_unsent (sent_on now r.outbox_event_id (p ∷ rows))
              < count is_unsent (p ∷ rows))
            same (count-sent_on_head now p rows here)
      | inr later ↦
          let same : q ≡ o = ground (arith, here, found, later, e) in
          let fewer = count-sent_on-oldest now rows q found in
          subst
            (λ r.
              count is_unsent (sent_on now r.outbox_event_id (p ∷ rows))
              < count is_unsent (p ∷ rows))
            same (ground (arith, here, fewer))
    ]
  ]
]

sent_on-IsIdle :
    (now : Time) (id : Uuid) (rows : List OutboxRow)
    → All IsIdle rows
    → All IsIdle (sent_on now id rows)
unfolding Outbox.mark_published
sent_on-IsIdle now id [] h = tt
sent_on-IsIdle now id (o ∷ rows) (h, hs) = (ground (arith, h), sent_on-IsIdle now id rows hs)

-- Where nothing is claimed and nothing is pending, nothing is unsent.
idle_drained :
    (rows : List OutboxRow)
    → All IsIdle rows
    → All (λ o. is_pending o.status ≡ false) rows
    → count is_unsent rows ≡ 0
idle_drained [] h k = refl
idle_drained (o ∷ rows) (h, hs) (k, ks) = ground (arith, h, k, idle_drained rows hs ks)

pub publish_loop-count :
    (send : OutboxRow → Option Text) (now : Time) (left published : ℕ) (rows : List OutboxRow)
    → ((o : OutboxRow) → send o ≡ none)
    → All IsIdle rows
    → count is_unsent (Outbox.publish_loop send now left published rows).1
      ≤ count is_unsent rows - left
unfolding Outbox.publish_loop Outbox.claim
publish_loop-count send now zero published rows accepts idle = omega arith
publish_loop-count send now (suc left) published rows accepts idle =
    elim (Option-cases (Outbox.oldest rows)) [
      | inl drained ↦
          let nothing = idle_drained rows idle (none_pending rows drained) in
          rw (Outbox.publish_loop, Outbox.claim, drained) (omega (arith, nothing))
      | inr (o, found) ↦
          let id = o.outbox_event_id in
          let fewer = count-sent_on-oldest now rows o found in
          let rest =
            publish_loop-count send now left (suc published) (sent_on now id rows) accepts
              (sent_on-IsIdle now id rows idle) in
          rw (Outbox.publish_loop, Outbox.claim, found, accepts o) (omega (arith, fewer, rest))
    ]

pub recover-count :
    (now : Time) (rows : List OutboxRow)
    → count is_unsent (Outbox.recover_expired_claims now rows) ≡ count is_unsent rows
unfolding Outbox.recover_expired_claims
recover-count now [] = refl
recover-count now (o ∷ rows) = ground (arith, recover-count now rows)

-- A minute after the last claim every claim is recovered.
pub recover-IsIdle :
    (c now : Time) (rows : List OutboxRow)
    → c + claim_age < now
    → All (IsClaimedBy c) rows
    → All IsIdle (Outbox.recover_expired_claims now rows)
unfolding Outbox.recover_expired_claims
recover-IsIdle c now [] late h = tt
recover-IsIdle c now (o ∷ rows) late (inl idle, hs) =
    (ground (arith, idle), recover-IsIdle c now rows late hs)
recover-IsIdle c now (o ∷ rows) late (inr (t, claimed_at, early), hs) =
    (ground (arith, claimed_at, early, late), recover-IsIdle c now rows late hs)

-- A claim of a row, and then its release or its acknowledgement, leaves no new claim.
settled-IsClaimedBy :
    (c now : Time) (id : Uuid) (f : OutboxRow → OutboxRow) (rows : List OutboxRow)
    → ((o : OutboxRow) → is_publishing (f o).status ≡ false)
    → All (IsClaimedBy c) rows
    → All (IsClaimedBy c) (update (is_row id) f (update (is_row id) (claimed now) rows))
settled-IsClaimedBy c now id f [] settles h = tt
settled-IsClaimedBy c now id f (o ∷ rows) settles (h, hs) = (
  elim (Bool-cases (is_row id o)) [
    | inl own ↦ rw (own, own) (inl (settles (claimed now o)))
    | inr other ↦ rw (other, other) h
  ],
  settled-IsClaimedBy c now id f rows settles hs,
)

pub recover-IsClaimedBy :
    (c now : Time) (rows : List OutboxRow)
    → All (IsClaimedBy c) rows
    → All (IsClaimedBy c) (Outbox.recover_expired_claims now rows)
unfolding Outbox.recover_expired_claims
recover-IsClaimedBy c now [] h = tt
recover-IsClaimedBy c now (o ∷ rows) (h, hs) = (
  elim (Bool-cases (is_publishing o.status && claimed_before now o.claimed_at)) [
    | inl expired ↦ rw expired (inl refl)
    | inr kept ↦ rw kept h
  ],
  recover-IsClaimedBy c now rows hs,
)

pub publish_loop-IsClaimedBy :
    (c : Time) (send : OutboxRow → Option Text) (now : Time) (left published : ℕ)
    (rows : List OutboxRow)
    → All (IsClaimedBy c) rows
    → All (IsClaimedBy c) (Outbox.publish_loop send now left published rows).1
unfolding Outbox.publish_loop Outbox.claim Outbox.release Outbox.mark_published
publish_loop-IsClaimedBy c send now zero published rows h = h
publish_loop-IsClaimedBy c send now (suc left) published rows h =
    elim (Option-cases (Outbox.oldest rows)) [
      | inl drained ↦ rw (Outbox.publish_loop, Outbox.claim, drained) h
      | inr (o, found) ↦
          let id = o.outbox_event_id in
          elim (Option-cases (send o)) [
            | inr (error, failed) ↦
                rw (Outbox.publish_loop, Outbox.claim, found, failed)
                  (settled-IsClaimedBy c now id (released error) rows (λ p. refl) h)
            | inl sent ↦
                rw (Outbox.publish_loop, Outbox.claim, found, sent)
                  (publish_loop-IsClaimedBy c send now left (suc published) (sent_on now id rows)
                    (settled-IsClaimedBy c now id (acknowledged now) rows (λ p. refl) h))
          ]
    ]
