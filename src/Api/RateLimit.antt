-- ===== src/Api/RateLimit.antt =====
-- internal/api/ratelimit.go: the limiters of the clients. The token bucket is a library's.
pub mod Isolation
use openclaw_cortex.Base.{
  ℕ, ◌-◌, ◌*◌, String, Bool, true, false, not, ◌||◌, Option, none, some, List, [], ◌∷◌, ltb,
  if◌then◌else◌, Map, lookup, insert, restrict, str_eq,
}

-- rate.NewLimiter with the settings, and Allow at a time.
pub record Limiting (L : Type 0) : Type 0 where
  pub new_limiter : L
  pub allow : ℕ → L → L × Bool

pub record Visitor (L : Type 0) : Type 0 where
  pub limiter : L
  pub last_seen : ℕ

-- A request by its path and remote address, or a tick of the purging goroutine, at a time.
pub data Event : Type 0 where
  request : ℕ → String → String → Event
  tick : ℕ → Event

unfoldable pub exempt_path : String → Bool
exempt_path path = str_eq path "/healthz" || str_eq path "/metrics"

-- `cut_last` gives the text before the last colon.
abbrev pub host_of : (String → Option String) → String → String
host_of cut_last address = elim (cut_last address) [ none ↦ address | some host ↦ host ]

abbrev three_minutes : ℕ
three_minutes = 3 * 60 * 1000000000

module _ {L : Type 0} (lim : Limiting L) (cut_last : String → Option String) where
  abbrev pub limiter_of : Option (Visitor L) → L
  limiter_of none = lim.new_limiter
  limiter_of (some v) = v.limiter

  -- getVisitor and Allow.
  unfoldable pub allowed : ℕ → String → Map (Visitor L) → Map (Visitor L) × Bool
  allowed now ip visitors =
      let (limiter, ok) = lim.allow now (limiter_of (lookup ip visitors)) in
      (insert ip (record { limiter = limiter; last_seen = now }) visitors, ok)

  abbrev pub is_recent : ℕ → Visitor L → Bool
  is_recent now v = not (ltb three_minutes (now - v.last_seen))

  unfoldable pub purge : ℕ → Map (Visitor L) → Map (Visitor L)
  purge now visitors = restrict (is_recent now) visitors

  -- Whether the request is served; `false` is status 429.
  unfoldable pub serve_limited : ℕ → String → String → Map (Visitor L) → Map (Visitor L) × Bool
  unfolding exempt_path allowed
  serve_limited now path address visitors =
      if exempt_path path then (visitors, true) else allowed now (host_of cut_last address) visitors

  unfoldable pub handle_event : Event → Map (Visitor L) → Map (Visitor L)
  unfolding serve_limited purge
  handle_event (request now path address) visitors = (serve_limited now path address visitors).0
  handle_event (tick now) visitors = purge now visitors
