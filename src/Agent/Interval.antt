-- ===== src/Agent/Interval.antt =====
-- examples/agent/main.go: the interval between two entries.
use multi_region.Prelude.{
  ℕ, ◌+◌, ◌-◌, ◌*◌, ◌%◌, ◌≤◌, ◌<◌, ◌≡◌, false, ℤ, pos, negsuc, arith, if◌then◌else◌, ltb, ltb→lt,
  lt→ltb, Bool-cases, ◌==◌, inl, inr,
}
use multi_region.Agent.{FileConfig, second, signed64, in_seconds, or_default, interval}

-- A ticker panics on an interval that is not positive; one of an int64 has at most 63 bits.
abbrev pub Ticks : ℤ → Type 0
Ticks (pos n) = (0 < n) × (n < 0x8000_0000_0000_0000)
Ticks (negsuc n) = ⊥

positive : (w : ℕ) → 0 < w → (w == 0) ≡ false
positive w h = ground arith

zero_or_more : (w : ℕ) → (w == 0) ≡ false → 0 < w
zero_or_more w h = ground arith

default_pos : (w : ℕ) → 0 < w → or_default (pos w) ≡ pos w
unfolding or_default
default_pos w h = rw (positive w h)

default_pos-Ticks : (w : ℕ) → w < 0x8000_0000_0000_0000 → Ticks (or_default (pos w))
unfolding or_default
default_pos-Ticks w h = elim (Bool-cases (w == 0)) [
  | inl eq ↦ rw eq (omega arith, omega arith)
  | inr eq ↦ rw eq (zero_or_more w eq, h)
]

default_neg-Ticks : (w : ℕ) → Ticks (or_default (negsuc w))
unfolding or_default
default_neg-Ticks w = (omega arith, omega arith)

or_default-Ticks : (w : ℕ) → Ticks (or_default (signed64 w))
unfolding signed64
or_default-Ticks w = elim (Bool-cases (ltb w 0x8000_0000_0000_0000)) [
  | inl small ↦ rw small (default_pos-Ticks w (ltb→lt _ _ small))
  | inr large ↦ rw large (default_neg-Ticks _)
]

signed64_small : (w : ℕ) → w < 0x8000_0000_0000_0000 → signed64 w ≡ pos w
unfolding signed64
signed64_small w h = rw (lt→ltb _ _ h)

not_below : (w : ℕ) → 0x8000_0000_0000_0000 ≤ w → ltb w 0x8000_0000_0000_0000 ≡ false
not_below w h = ground arith

at_least : (a b : ℕ) → ltb a b ≡ false → b ≤ a
at_least a b h = ground arith

signed64_large : (w : ℕ) → 0x8000_0000_0000_0000 ≤ w → or_default (signed64 w) ≡ pos (5 * second)
unfolding signed64 or_default
signed64_large w h = rw (not_below w h)

in_seconds-Ticks : (s : ℤ) → Ticks (or_default (in_seconds s))
unfolding in_seconds
in_seconds-Ticks (pos n) = or_default-Ticks ((n * second) % 0x1_0000_0000_0000_0000)
in_seconds-Ticks (negsuc n) = or_default-Ticks (
    (0x1_0000_0000_0000_0000 - ((n + 1) * second) % 0x1_0000_0000_0000_0000)
    % 0x1_0000_0000_0000_0000)

-- Whatever number of seconds the configuration has, the interval is positive and fits into an int64.
pub interval_bounds : (cfg : FileConfig) → Ticks (interval cfg)
unfolding interval
interval_bounds cfg = in_seconds-Ticks cfg.interval_seconds

-- A number of seconds from 1 to 18446744073 is the interval, in nanoseconds, up to 9223372036, and
-- makes it five seconds from there on.
pub interval_exact :
    (cfg : FileConfig) (n : ℕ)
    → 0 < n
    → n ≤ 18_446_744_073
    → cfg.interval_seconds ≡ pos n
    → interval cfg ≡ pos (if ltb n 9_223_372_037 then n * second else 5 * second)
unfolding interval in_seconds
interval_exact cfg n h k eq = elim (Bool-cases (ltb n 9_223_372_037)) [
  | inl few ↦ rw (
    eq,
    few,
    fits,
    signed64_small (n * second) (omega (arith, ltb→lt n 9_223_372_037 few)),
    default_pos (n * second) (omega arith),
  )
  | inr many ↦
      rw (eq, many, fits)
        (signed64_large (n * second) (omega (arith, at_least n 9_223_372_037 many)))
]
  where
    fits : (n * second) % 0x1_0000_0000_0000_0000 ≡ n * second
    fits = omega arith
