-- ===== src/Outbox/Liveness.antt =====
-- bantam/events.py: once the backend accepts, the loop of the publisher empties the table.
use bantam_bank.Prelude.{
  ℕ, suc, zero, ◌+◌, ◌*◌, ◌-◌, ◌≤◌, ◌<◌, ◌≡◌, refl, Bool, update, count, length, ◌++◌, All, Option,
  none, Option-cases, inl, inr, List, [], ◌∷◌, arith,
}
use bantam_bank.Prelude.Text.{Text}
use bantam_bank.Domain.{Time}
use bantam_bank.Db.{OutboxRow, OutboxStatus}
use bantam_bank.Outbox
use bantam_bank.Outbox.{is_row, claimed, released, acknowledged, claim_age, Turn}
use bantam_bank.Outbox.Draining.{
  is_unsent, IsClaimedBy, sent_on, publish_loop-count, recover-count, recover-IsIdle,
  recover-IsClaimedBy, publish_loop-IsClaimedBy,
}

length-update :
    (p : OutboxRow → Bool) (f : OutboxRow → OutboxRow) (rows : List OutboxRow)
    → length (update p f rows) ≡ length rows
length-update p f [] = refl
length-update p f (o ∷ rows) = omega (arith, length-update p f rows)

length-recover :
    (now : Time) (rows : List OutboxRow)
    → length (Outbox.recover_expired_claims now rows) ≡ length rows
unfolding Outbox.recover_expired_claims
length-recover now [] = refl
length-recover now (o ∷ rows) = omega (arith, length-recover now rows)

length-publish_loop :
    (send : OutboxRow → Option Text) (now : Time) (left published : ℕ) (rows : List OutboxRow)
    → length (Outbox.publish_loop send now left published rows).1 ≡ length rows
unfolding Outbox.publish_loop Outbox.claim Outbox.release Outbox.mark_published
length-publish_loop send now zero published rows = refl
length-publish_loop send now (suc left) published rows = elim (Option-cases (Outbox.oldest rows)) [
  | inl drained ↦ rw (Outbox.publish_loop, Outbox.claim, drained) refl
  | inr (o, found) ↦
      let own = is_row o.outbox_event_id in
      let taken = update own (claimed now) rows in
      elim (Option-cases (send o)) [
        | inr (error, failed) ↦
            rw (Outbox.publish_loop, Outbox.claim, found, failed)
              (omega (
                arith,
                length-update own (released error) taken,
                length-update own (claimed now) rows,
              ))
        | inl sent ↦
            rw (Outbox.publish_loop, Outbox.claim, found, sent)
              (omega (
                arith,
                length-publish_loop send now left (suc published)
                    (sent_on now o.outbox_event_id rows),
                length-update own (acknowledged now) taken,
                length-update own (claimed now) rows,
              ))
      ]
]

-- A batch keeps the number of rows, and the time by which they were claimed.
publish_batch-keeps :
    (c : Time) (send : OutboxRow → Option Text) (now : Time) (rows : List OutboxRow)
    → All (IsClaimedBy c) rows
    → (length (Outbox.publish_batch send now rows).1 ≡ length rows)
      × All (IsClaimedBy c) (Outbox.publish_batch send now rows).1
unfolding Outbox.publish_batch
publish_batch-keeps c send now rows h =
    let recovered = Outbox.recover_expired_claims now rows in
    (
      omega (arith, length-publish_loop send now 50 0 recovered, length-recover now rows),
      publish_loop-IsClaimedBy c send now 50 0 recovered (recover-IsClaimedBy c now rows h),
    )

-- In such a turn the backend accepts every event, and every claim that was left has expired.
pub record IsGood (c : Time) (t : Turn) : Type 0 where
  pub accepts : (o : OutboxRow) → t.send o ≡ none
  pub late : c + claim_age < t.now

run-keeps :
    (c : Time) (turns : List Turn) (rows : List OutboxRow)
    → All (IsClaimedBy c) rows
    → (length (Outbox.run turns rows) ≡ length rows) × All (IsClaimedBy c) (Outbox.run turns rows)
unfolding Outbox.run
run-keeps c [] rows h = (refl, h)
run-keeps c (t ∷ turns) rows h =
    let (same, kept) = publish_batch-keeps c t.send t.now rows h in
    let (same', kept') = run-keeps c turns (Outbox.publish_batch t.send t.now rows).1 kept in
    (omega (arith, same, same'), kept')

run-append :
    (before after : List Turn) (rows : List OutboxRow)
    → Outbox.run (before ++ after) rows ≡ Outbox.run after (Outbox.run before rows)
unfolding Outbox.run
run-append [] after rows = refl
run-append (t ∷ before) after rows =
    run-append before after (Outbox.publish_batch t.send t.now rows).1

publish_batch-count :
    (c : Time) (t : Turn) (rows : List OutboxRow)
    → IsGood c t
    → All (IsClaimedBy c) rows
    → count is_unsent (Outbox.publish_batch t.send t.now rows).1 ≤ count is_unsent rows - 50
unfolding Outbox.publish_batch
publish_batch-count c t rows good h =
    let fewer =
      publish_loop-count t.send t.now 50 0 (Outbox.recover_expired_claims t.now rows) good.accepts
        (recover-IsIdle c t.now rows good.late h) in
    omega (arith, fewer, recover-count t.now rows)

run-count :
    (c : Time) (turns : List Turn) (rows : List OutboxRow)
    → All (IsGood c) turns
    → All (IsClaimedBy c) rows
    → count is_unsent (Outbox.run turns rows) ≤ count is_unsent rows - 50 * length turns
unfolding Outbox.run
run-count c [] rows good h = omega arith
run-count c (t ∷ turns) rows (good, goods) h =
    let fewer = publish_batch-count c t rows good h in
    let (_, kept) = publish_batch-keeps c t.send t.now rows h in
    let rest = run-count c turns (Outbox.publish_batch t.send t.now rows).1 goods kept in
    omega (arith, fewer, rest)

count_bound : (rows : List OutboxRow) → count is_unsent rows ≤ length rows
count_bound [] = omega arith
count_bound (o ∷ rows) = ground (arith, count_bound rows)

none_unsent :
    (rows : List OutboxRow)
    → count is_unsent rows ≡ 0
    → All (λ o. o.status ≡ OutboxStatus.published) rows
none_unsent [] e = tt
none_unsent (o ∷ rows) e = (ground (arith, e), none_unsent rows (ground (arith, e)))

-- However often batches have failed before, once the backend accepts every event and more than a
-- minute has passed since the last claim that was left in the table, one batch for every 50 rows,
-- or part of 50, publishes them all.
pub run_publishes :
    (c : Time) (before after : List Turn) (rows : List OutboxRow)
    → All (IsClaimedBy c) rows
    → All (IsGood c) after
    → length rows ≤ 50 * length after
    → All (λ o. o.status ≡ OutboxStatus.published) (Outbox.run (before ++ after) rows)
run_publishes c before after rows h good enough =
    let (same, kept) = run-keeps c before rows h in
    let fewer = run-count c after (Outbox.run before rows) good kept in
    let bound = count_bound (Outbox.run before rows) in
    rw (run-append before after rows) (
      none_unsent (Outbox.run after (Outbox.run before rows))
        (omega (arith, same, fewer, bound, enough)))
