-- ===== src/Limits/Window.antt =====
-- bantam/security.py: the attempts that DatabaseRateLimiter.check allows in one window.
use bantam_bank.Prelude.{
  ◌&&◌, ℕ, suc, ◌+◌, ◌≤◌, ◌<◌, ◌≡◌, ◌∙◌, sym, ap, subst, refl, leb, Bool, true, false, find?,
  update, select, count, some, All, List, [], ◌∷◌, if◌then◌else◌, arith, tests, Bool-cases,
  Option-cases, inl, inr,
}
use bantam_bank.Prelude.Text.{Text, ◌==ₜ◌, ==ₜ_iff}
use bantam_bank.Domain.{Time}
use bantam_bank.Limits
use bantam_bank.Limits.{Limiter, Limits, RateRow, Check, is_key, counted, is_kept, micros, max, day}

abbrev pub min : ℕ → ℕ → ℕ
min a b = if leb a b then a else b

-- How many of the calls with this digest are allowed.
unfoldable pub allowed : Limiter → Text → List Check → Limits → ℕ
unfolding Limits.check
allowed l key_hash [] state = 0
allowed l key_hash (c ∷ cs) state =
    let (result, next) = Limits.check l c state in
    let rest = allowed l key_hash cs next in
    if (l.sha256 c.key ==ₜ key_hash) && result.allowed then suc rest else rest

abbrev pub has_hash : Limiter → Text → Check → Bool
has_hash l key_hash c = l.sha256 c.key ==ₜ key_hash

-- The call is made in the window that began at `start`, and no later than a day after.
abbrev pub IsWithin : Limiter → Time → Check → Type 0
IsWithin l start c =
    (start ≤ c.now) × (c.now < start + micros l.window_seconds) × (c.swept_at ≤ start + day)

find?-update :
    (p : RateRow → Bool) (f : RateRow → RateRow) (rows : List RateRow) (r : RateRow)
    → ((x : RateRow) → p (f x) ≡ p x)
    → find? p rows ≡ some r
    → find? p (update p f rows) ≡ some (f r)
find?-update p f [] r keeps e = absurd (ground arith)
find?-update p f (x ∷ rows) r keeps e = ground (arith, keeps x, find?-update p f rows r keeps)

find?-update_other :
    (p q : RateRow → Bool) (f : RateRow → RateRow) (rows : List RateRow)
    → ((x : RateRow) → p (f x) ≡ p x)
    → ((x : RateRow) → p x ≡ true → q x ≡ false)
    → find? p (update q f rows) ≡ find? p rows
find?-update_other p q f [] keeps apart = refl
find?-update_other p q f (x ∷ rows) keeps apart =
    ground (arith, keeps x, apart x, find?-update_other p q f rows keeps apart)

find?-select :
    (p keep : RateRow → Bool) (rows : List RateRow) (r : RateRow)
    → find? p rows ≡ some r
    → keep r ≡ true
    → find? p (select keep rows) ≡ some r
find?-select p keep [] r e k = absurd (ground arith)
find?-select p keep (x ∷ rows) r e k = ground (arith, find?-select p keep rows r)

-- The first row of the key counts `n` attempts since `start`.
pub record Counts (key_hash : Text) (start : Time) (n : ℕ) (rows : List RateRow) : Type 0 where
  pub row : RateRow
  pub found : find? (is_key key_hash) rows ≡ some row
  pub starts : row.window_started_at ≡ start
  pub counts : row.attempts ≡ n
  pub fresh : start ≤ row.updated_at

-- The DELETE spares the row.
sweep-Counts :
    (key_hash : Text) (start : Time) (n checks : ℕ) (now : Time) (rows : List RateRow)
    → now ≤ start + day
    → Counts key_hash start n rows
    → Counts key_hash start n (Limits.sweep now checks rows).rows
unfolding Limits.sweep
sweep-Counts key_hash start n checks now rows early h =
    let kept : is_kept now h.row ≡ true = grind (tests, h.fresh, early) in
    record {
      row = h.row;
      found =
          ground
            (arith, h.found, find?-select (is_key key_hash) (is_kept now) rows h.row h.found kept);
      starts = h.starts;
      counts = h.counts;
      fresh = h.fresh;
    }

-- A further attempt of the key in its window.
upsert-Counts :
    (w : ℕ) (key_hash : Text) (start : Time) (n : ℕ) (now : Time) (rows : List RateRow)
    → start ≤ now
    → now < start + micros w
    → Counts key_hash start n rows
    → let (r, rows') = Limits.upsert w key_hash now rows in
      (r.attempts ≡ suc n) × Counts key_hash start (suc n) rows'
unfolding Limits.upsert
upsert-Counts w key_hash start n now rows after before h =
    let open_window : Limits.is_over w now h.row ≡ false = grind (tests, h.starts) in
    rw (h.found, Limits.upsert)
      (
        ground (arith, open_window, h.counts),
        record {
          row = counted w now h.row;
          found = find?-update (is_key key_hash) (counted w now) rows h.row (λ x. refl) h.found;
          starts = rw open_window h.starts;
          counts = rw open_window (ap suc h.counts);
          fresh = after;
        },
      )

-- Two digests of one row are the same.
other_key :
    (key_hash other : Text) (r : RateRow)
    → (other ==ₜ key_hash) ≡ false
    → is_key key_hash r ≡ true
    → is_key other r ≡ false
other_key key_hash other r apart own = elim (Bool-cases (is_key other r)) [
  | inr apart_too ↦ apart_too
  | inl same ↦
      let one : other ≡ key_hash =
        sym ((==ₜ_iff r.key_hash other).0 same) ∙ (==ₜ_iff r.key_hash key_hash).0 own in
      absurd (ground (arith, (==ₜ_iff other key_hash).1 one))
]

upsert-other :
    (w : ℕ) (key_hash other : Text) (start : Time) (n : ℕ) (now : Time) (rows : List RateRow)
    → (other ==ₜ key_hash) ≡ false
    → Counts key_hash start n rows
    → Counts key_hash start n (Limits.upsert w other now rows).1
unfolding Limits.upsert
upsert-other w key_hash other start n now rows apart h =
    let kept : find? (is_key key_hash) (Limits.upsert w other now rows).1 ≡ some h.row =
      elim (Option-cases (find? (is_key other) rows)) [
        | inl missing ↦ rw (missing, Limits.upsert) (rw apart h.found)
        | inr (r, there) ↦
            rw (there, Limits.upsert)
              (find?-update_other (is_key key_hash) (is_key other) (counted w now) rows (λ x. refl)
                  (λ x own. other_key key_hash other x apart own)
                ∙ h.found)
      ] in
    record { row = h.row; found = kept; starts = h.starts; counts = h.counts; fresh = h.fresh }

-- A call of another key, and a call of the same.
check-other :
    (l : Limiter) (key_hash : Text) (start : Time) (n : ℕ) (c : Check) (state : Limits)
    → has_hash l key_hash c ≡ false
    → IsWithin l start c
    → Counts key_hash start n state.rows
    → Counts key_hash start n (Limits.check l c state).1.rows
unfolding Limits.check
check-other l key_hash start n c state apart within h =
    sweep-Counts key_hash start n state.checks c.swept_at _ within.2
      (upsert-other l.window_seconds key_hash (l.sha256 c.key) start n c.now state.rows apart h)

check-same :
    (l : Limiter) (start : Time) (n : ℕ) (c : Check) (state : Limits)
    → IsWithin l start c
    → Counts (l.sha256 c.key) start n state.rows
    → let (result, next) = Limits.check l c state in
      (result.allowed ≡ leb (suc n) l.limit) × Counts (l.sha256 c.key) start (suc n) next.rows
unfolding Limits.check
check-same l start n c state within h =
    let (counts, next) =
      upsert-Counts l.window_seconds (l.sha256 c.key) start n c.now state.rows within.0 within.1
        h in
    (
      ground (arith, counts),
      sweep-Counts (l.sha256 c.key) start (suc n) state.checks c.swept_at _ within.2 next,
    )

-- The attempts that pass fill the window up to the limit.
allowed-further :
    (l : Limiter) (key_hash : Text) (start : Time) (n : ℕ) (cs : List Check) (state : Limits)
    → All (IsWithin l start) cs
    → Counts key_hash start n state.rows
    → allowed l key_hash cs state + min n l.limit ≡ min (count (has_hash l key_hash) cs + n) l.limit
unfolding allowed
allowed-further l key_hash start n [] state within h = grind tests
allowed-further l key_hash start n (c ∷ cs) state within h =
    elim (Bool-cases (has_hash l key_hash c)) [
      | inr apart ↦
          let rest =
            allowed-further l key_hash start n cs (Limits.check l c state).1 within.1
              (check-other l key_hash start n c state apart within.0 h) in
          rw (apart, allowed) (grind (tests, rest))
      | inl own ↦
          let one = (==ₜ_iff (l.sha256 c.key) key_hash).0 own in
          let (passes, next) =
            check-same l start n c state within.0
              (subst (λ k. Counts k start n state.rows) (sym one) h) in
          let rest =
            allowed-further l key_hash start (suc n) cs (Limits.check l c state).1 within.1
              (subst (λ k. Counts k start (suc n) (Limits.check l c state).1.rows) one next) in
          rw (own, passes, allowed)
            (elim (Bool-cases (leb (suc n) l.limit)) [
              | inl room ↦ grind (tests, room, rest)
              | inr full ↦ grind (tests, full, rest)
            ])
    ]

-- A window of the key opens: no row counts for it, or the row's window is over.
abbrev pub Opens : Limiter → Check → Limits → Type 0
Opens l c state =
    (r : RateRow)
    → find? (is_key (l.sha256 c.key)) state.rows ≡ some r
    → Limits.is_over l.window_seconds c.now r ≡ true

upsert-Opens :
    (l : Limiter) (c : Check) (state : Limits)
    → Opens l c state
    → let (r, rows) = Limits.upsert l.window_seconds (l.sha256 c.key) c.now state.rows in
      (r.attempts ≡ 1) × Counts (l.sha256 c.key) c.now 1 rows
unfolding Limits.upsert
upsert-Opens l c state opens =
    let key = l.sha256 c.key in
    let w = l.window_seconds in
    let own : is_key key (Limits.first_attempt key c.now) ≡ true = (==ₜ_iff key key).1 refl in
    elim (Option-cases (find? (is_key key) state.rows)) [
      | inl missing ↦
          rw (missing, Limits.upsert)
            (
              refl,
              record {
                row = Limits.first_attempt key c.now;
                found = rw own refl;
                starts = refl;
                counts = refl;
                fresh = omega arith;
              },
            )
      | inr (r, there) ↦
          let over = opens r there in
          rw (there, Limits.upsert)
            (
              rw over refl,
              record {
                row = counted w c.now r;
                found = find?-update (is_key key) (counted w c.now) state.rows r (λ x. refl) there;
                starts = rw over refl;
                counts = rw over refl;
                fresh = omega arith;
              },
            )
    ]

-- Where no row counts for the key of a call, or the row's window is over, and the calls from this
-- one on are made within one window of it, and no DELETE is made more than a day after it, exactly as
-- many calls of the key are allowed as are made, up to the limit.
pub check_window :
    (l : Limiter) (c : Check) (cs : List Check) (state : Limits)
    → Opens l c state
    → IsWithin l c.now c
    → All (IsWithin l c.now) cs
    → allowed l (l.sha256 c.key) (c ∷ cs) state
      ≡ min (count (has_hash l (l.sha256 c.key)) (c ∷ cs)) l.limit
unfolding allowed Limits.check
check_window l c cs state opens now_within within =
    let key = l.sha256 c.key in
    let (one, counts) = upsert-Opens l c state opens in
    let own : (key ==ₜ key) ≡ true = (==ₜ_iff key key).1 refl in
    let rest =
      allowed-further l key c.now 1 cs (Limits.check l c state).1 within
        (sweep-Counts key c.now 1 state.checks c.swept_at _ now_within.2 counts) in
    let passes : (Limits.check l c state).0.allowed ≡ leb 1 l.limit = ground (arith, one) in
    rw (own, passes)
      (elim (Bool-cases (leb 1 l.limit)) [
        | inl room ↦ grind (tests, room, rest)
        | inr full ↦ grind (tests, full, rest)
      ])
