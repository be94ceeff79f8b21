-- ===== src/Link/Time.antt =====
-- The microseconds that the link counts in its state (src/core/link.cpp).
use pico_sg2hid.Common.{ℕ, ◌+◌, ◌≤◌, ◌≡◌, min, arith, u32_max}
use pico_sg2hid.Link.{add_saturating}

-- Saturating addition is the sum up to the largest 32-bit value: it neither wraps nor, on 32-bit
-- arguments, leaves the range.
pub add_saturating_lem :
    (base addend : ℕ)
    → base ≤ u32_max
    → addend ≤ u32_max
    → add_saturating base addend ≡ min (base + addend) u32_max
unfolding add_saturating
add_saturating_lem base addend hb ha = ground arith
