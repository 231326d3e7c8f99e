-- ===== src/Client/Backoff.antt =====
-- How long the client waits before it tries again to connect.
use gotaxy.Prelude.{
  ℕ, zero, suc, ◌*◌, ◌^◌, ◌≤◌, ◌<◌, ◌≡◌, ◌∙◌, ap, some, get_elem?, arith, List, [], ◌∷◌, All, ltb,
  refl, length, if◌then◌else◌,
}
use gotaxy.Client.{
  Attempt, not_connected, no_session, ended, base_delay, max_delay, next_delay, sleeps,
}

abbrev pub InBounds : ℕ → Type 0
InBounds delay = (base_delay ≤ delay) × (delay ≤ max_delay)

next_delay-InBounds :
    (current : ℕ) (a : Attempt) → InBounds current → InBounds (next_delay current a)
unfolding next_delay
next_delay-InBounds current not_connected h = ground arith
next_delay-InBounds current no_session h = ground arith
next_delay-InBounds current ended h = ground arith

sleeps_from :
    (current : ℕ) (attempts : List Attempt)
    → InBounds current
    → All InBounds (sleeps current attempts)
unfolding sleeps
sleeps_from current [] h = tt
sleeps_from current (not_connected ∷ attempts) h = (
  h,
  sleeps_from (next_delay current not_connected) attempts
      (next_delay-InBounds current not_connected h),
)
sleeps_from current (no_session ∷ attempts) h = (
  omega arith,
  sleeps_from (next_delay current no_session) attempts (next_delay-InBounds current no_session h),
)
sleeps_from current (ended ∷ attempts) h =
    sleeps_from (next_delay current ended) attempts (next_delay-InBounds current ended h)

-- The attempts that give no session.
abbrev pub failed : List Attempt → ℕ
failed [] = 0
failed (not_connected ∷ attempts) = suc (failed attempts)
failed (no_session ∷ attempts) = suc (failed attempts)
failed (ended ∷ attempts) = failed attempts

length-sleeps :
    (current : ℕ) (attempts : List Attempt) → length (sleeps current attempts) ≡ failed attempts
unfolding sleeps
length-sleeps current [] = refl
length-sleeps current (not_connected ∷ attempts) =
    ap suc (length-sleeps (next_delay current not_connected) attempts)
length-sleeps current (no_session ∷ attempts) =
    ap suc (length-sleeps (next_delay current no_session) attempts)
length-sleeps current (ended ∷ attempts) = length-sleeps (next_delay current ended) attempts

-- The client sleeps once for each attempt that gives no session, and each time at least 2 and at most 30
-- seconds. It does not sleep after a session that has ended.
pub sleeps-InBounds :
    (attempts : List Attempt)
    → All InBounds (sleeps base_delay attempts)
      × (length (sleeps base_delay attempts) ≡ failed attempts)
sleeps-InBounds attempts =
    (sleeps_from base_delay attempts (omega arith), length-sleeps base_delay attempts)

-- `k` failures to connect in a row.
abbrev pub failures : ℕ → List Attempt → List Attempt
failures zero attempts = attempts
failures (suc k) attempts = not_connected ∷ failures k attempts

abbrev pub bounded : ℕ → ℕ
bounded delay = if ltb max_delay delay then max_delay else delay

le_times : (a p : ℕ) → 1 ≤ p → a ≤ a * p
le_times a zero h = absurd (omega arith)
le_times a (suc p) h = ground arith

one_le_pow : (i : ℕ) → 1 ≤ 2 ^ i
one_le_pow zero = omega arith
one_le_pow (suc i) = let h = one_le_pow i in omega arith

bounded_twice : (a p : ℕ) → 1 ≤ p → bounded (bounded a * p) ≡ bounded (a * p)
bounded_twice a p h = let m = le_times a p h in let n = le_times max_delay p h in ground arith

twice_pow : (i : ℕ) → 2 * 2 ^ i ≡ 2 ^ suc i
twice_pow i = omega arith

regroup : (a i : ℕ) → a * 2 * 2 ^ i ≡ a * 2 ^ suc i
regroup a i = rw (← twice_pow i) (ground arith)

sleep_after :
    (i k current : ℕ) (attempts : List Attempt)
    → i < k
    → current ≤ max_delay
    → get_elem? (sleeps current (failures k attempts)) i ≡ some (bounded (current * 2 ^ i))
unfolding sleeps next_delay
sleep_after i zero current attempts h b = absurd (omega arith)
sleep_after zero (suc k) current attempts h b = ground arith
sleep_after (suc i) (suc k) current attempts h b =
    sleep_after i k (bounded (current * 2)) attempts (omega arith) (ground arith)
    ∙ ap some (bounded_twice (current * 2) (2 ^ i) (one_le_pow i) ∙ ap bounded (regroup current i))

-- The i-th of `k` failures to connect in a row from the start on, counted from 0, is followed by a sleep
-- of 2 ^ (i + 1) seconds, or 30 if that is more.
pub sleeps-failures :
    (i k : ℕ) (attempts : List Attempt)
    → i < k
    → get_elem? (sleeps base_delay (failures k attempts)) i ≡ some (bounded (2 ^ suc i))
sleeps-failures i k attempts h =
    sleep_after i k base_delay attempts h (omega arith) ∙ ap (λ d. some (bounded d)) (twice_pow i)
