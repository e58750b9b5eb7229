-- ===== src/Clock.antt =====
-- time.Time.Sub and the comparisons of durations. An instant is a number of nanoseconds; a
-- difference is an int64 that saturates at its two ends.
use cloud_agent_sandbox.Base.{ℕ, ◌+◌, ◌-◌, ◌<◌, ◌≡◌, ◌↔◌, Bool, true, leb, if◌then◌else◌, arith}
use cloud_agent_sandbox.Base.Int.{ℤ, pos, negsuc, ltb_ℤ, sub_ℕ}

abbrev pub max_duration : ℕ
max_duration = 9223372036854775807

-- t.Sub(u)
unfoldable pub time_sub : ℕ → ℕ → ℤ
time_sub t u =
    if leb u t
    then (if leb (t - u) max_duration then pos (t - u) else pos max_duration)
    else (if leb (u - t) max_duration then sub_ℕ t u else negsuc max_duration)

-- t.Sub(u) > d
unfoldable pub older_than : ℕ → ℕ → ℤ → Bool
unfolding time_sub
older_than t u d = ltb_ℤ d (time_sub t u)

-- Saturation does not show: against a non-negative limit below the largest duration the test says
-- whether more than the limit has passed.
pub older_than_iff : (t u d : ℕ) → d < max_duration → (older_than t u (pos d) ≡ true) ↔ (u + d < t)
unfolding older_than
older_than_iff t u d h = ground arith
