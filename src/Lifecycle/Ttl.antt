-- ===== src/Lifecycle/Ttl.antt =====
-- internal/lifecycle/lifecycle.go `expireTTL`: the 64-bit duration of a TTL.
use openclaw_cortex.Base.{ℕ, ◌+◌, ◌*◌, ◌≤◌, true, ◌&&◌, ◌≡◌, arith, ltb}
use openclaw_cortex.Base.Int.{pos}
use openclaw_cortex.Lifecycle.{second, ttl_bits, ttl_over}

-- For a TTL of up to 9,223,372,036 seconds a memory is expired exactly when the TTL is positive
-- and has passed.
ttl_over-window :
    (now created n : ℕ)
    → n ≤ 9223372036
    → ttl_over now created (pos n) ≡ (ltb 0 n && ltb (created + n * second) now)
unfolding ttl_over ttl_bits
ttl_over-window now created n h = ground arith

-- A TTL from 9,223,372,037 to 18,446,744,073 seconds is over at once.
ttl_over-wrapped :
    (now created n : ℕ)
    → 9223372037 ≤ n
    → n ≤ 18446744073
    → created ≤ now
    → ttl_over now created (pos n) ≡ true
unfolding ttl_over ttl_bits
ttl_over-wrapped now created n h k c = ground arith
