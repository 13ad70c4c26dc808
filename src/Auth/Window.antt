-- ===== src/Auth/Window.antt =====
-- The sliding window of app/api/rate_limiter.py: how the count of failed attempts and the retry
-- time move with the clock.
use ot_asset_discovery.Auth.{
  max_failed_attempts, second, window, AuthAttempt, is_counted, get_failed_attempt_count,
  is_rate_limited, oldest_attempt, check_rate_limit,
}
use ot_asset_discovery.Prelude.{
  ℕ, ◌+◌, ◌-◌, ◌*◌, ◌/◌, ◌≤◌, ◌<◌, ◌≡◌, refl, inl, inr, true, false, none, some, List, [], ◌∷◌,
  ◌++◌, arith, if◌then◌else◌, Option-cases, Text,
}

-- Later, no more attempts are counted.
pub count_anti :
    (ip : Text) (now later : ℕ) (attempts : List AuthAttempt)
    → now ≤ later
    → get_failed_attempt_count ip later attempts ≤ get_failed_attempt_count ip now attempts
unfolding get_failed_attempt_count
count_anti ip now later [] h = ground arith
count_anti ip now later (a ∷ attempts) h = ground (arith, count_anti ip now later attempts h)

pub count-append_one :
    (ip : Text) (now : ℕ) (attempts : List AuthAttempt) (a : AuthAttempt)
    → get_failed_attempt_count ip now (attempts ++ a ∷ [])
      ≡ get_failed_attempt_count ip now attempts + (if is_counted ip now a then 1 else 0)
unfolding get_failed_attempt_count
count-append_one ip now [] a = ground arith
count-append_one ip now (b ∷ attempts) a = ground (arith, count-append_one ip now attempts a)

oldest_none :
    (ip : Text) (now : ℕ) (attempts : List AuthAttempt)
    → oldest_attempt ip now attempts ≡ none
    → get_failed_attempt_count ip now attempts ≡ 0
unfolding get_failed_attempt_count oldest_attempt
oldest_none ip now [] e = refl
oldest_none ip now (a ∷ attempts) e = ground (arith, oldest_none ip now attempts)

-- Up to the end of the oldest attempt's window nothing leaves the window.
count_kept :
    (ip : Text) (now later t : ℕ) (attempts : List AuthAttempt)
    → oldest_attempt ip now attempts ≡ some t
    → now ≤ later
    → later ≤ t + window
    → get_failed_attempt_count ip later attempts ≡ get_failed_attempt_count ip now attempts
unfolding get_failed_attempt_count oldest_attempt
count_kept ip now later t [] e h k = refl
count_kept ip now later t (a ∷ attempts) e h k =
    elim (Option-cases (oldest_attempt ip now attempts)) [
      | inl q ↦ ground (arith, q, oldest_none ip now attempts q, count_anti ip now later attempts h)
      | inr (u, q) ↦ ground (arith, q, count_kept ip now later u attempts q h)
    ]

-- After it, the oldest attempt does.
count_less :
    (ip : Text) (now later t : ℕ) (attempts : List AuthAttempt)
    → oldest_attempt ip now attempts ≡ some t
    → now ≤ later
    → t + window < later
    → get_failed_attempt_count ip later attempts < get_failed_attempt_count ip now attempts
unfolding get_failed_attempt_count oldest_attempt
count_less ip now later t [] e h k = cc
count_less ip now later t (a ∷ attempts) e h k =
    elim (Option-cases (oldest_attempt ip now attempts)) [
      | inl q ↦ ground (arith, q, oldest_none ip now attempts q, count_anti ip now later attempts h)
      | inr (u, q) ↦
          ground
            (arith, q, count_less ip now later u attempts q h, count_anti ip now later attempts h)
    ]

-- If a check that reads one time throughout refuses with a retry time, then as long as no attempt
-- is recorded, each check within the retry time refuses too.
pub retry_refused :
    (ip : Text) (now retry later : ℕ) (attempts : List AuthAttempt)
    → check_rate_limit ip now now now attempts ≡ some retry
    → now ≤ later
    → later ≤ now + retry * second
    → is_rate_limited ip later attempts ≡ true
unfolding check_rate_limit is_rate_limited
retry_refused ip now retry later attempts e h k =
    elim (Option-cases (oldest_attempt ip now attempts)) [
      | inl q ↦ ground (arith, q, oldest_none ip now attempts q)
      | inr (t, q) ↦
          let asked : retry ≡ (t + window - now) / second = ground (arith, q, e) in
          let refused : is_rate_limited ip now attempts ≡ true = ground (arith, q, e) in
          ground (arith, asked, refused, count_kept ip now later t attempts q h)
    ]

-- If a check that reads one time throughout refuses with a retry time, and counts at most 5 failed
-- attempts, then as long as no attempt is recorded, each check a second or more after the retry
-- time passes.
pub retry_allowed :
    (ip : Text) (now retry later : ℕ) (attempts : List AuthAttempt)
    → check_rate_limit ip now now now attempts ≡ some retry
    → get_failed_attempt_count ip now attempts ≤ max_failed_attempts
    → now + (retry + 1) * second ≤ later
    → is_rate_limited ip later attempts ≡ false
unfolding check_rate_limit is_rate_limited
retry_allowed ip now retry later attempts e few k =
    elim (Option-cases (oldest_attempt ip now attempts)) [
      | inl q ↦ ground (arith, q, oldest_none ip now attempts q)
      | inr (t, q) ↦
          let asked : retry ≡ (t + window - now) / second = ground (arith, q, e) in
          ground (
            arith,
            count_less ip now later t attempts q (omega (arith, k)) (omega (arith, asked, k)),
          )
    ]
