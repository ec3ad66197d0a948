-- ===== src/Conn/Time.antt =====
-- The expiry times that realtime of memcached-1.4/memcached.c makes.
use reading_and_comprehense.Base.{ℕ, ◌+◌, ◌^◌, ◌≤◌, ◌<◌, ◌≡◌, ◌≢◌, false, arith, leb, if◌then◌else◌}
use reading_and_comprehense.Memory.Int.{pos, negsuc}
use reading_and_comprehense.Conn.{realtime, realtime_maxdelta}

-- The wall-clock time that a client's positive exptime stands for: at most 30 days are counted from now.
unfoldable pub deadline : ℕ → ℕ → ℕ → ℕ
deadline started now e = if leb e realtime_maxdelta then started + now + e else e

module _ (started now t : ℕ) (running : 1 ≤ now) (later : now ≤ t) (near : t < 2 ^ 31) where
  -- At each time t after a positive exptime e was given, t and e below 2^31, the stored time is not 0,
  -- and it has passed exactly when the deadline has passed on the clock of the wall, also for a deadline
  -- before the start of the server.
  pub realtime-deadline :
      (e : ℕ)
      → 1 ≤ e
      → e < 2 ^ 31
      → (realtime started now (pos e) ≢ 0)
        × (leb (realtime started now (pos e)) t ≡ leb (deadline started now e) (started + t))
  unfolding realtime deadline
  realtime-deadline e some_time small = (ground arith, ground arith)

  -- A negative exptime of 32 bits that reaches back before the start of the server becomes a time that has not
  -- passed at any t below 2^31.
  pub realtime_negative :
      (n : ℕ) → now ≤ n → n < 2 ^ 31 → leb (realtime started now (negsuc n)) t ≡ false
  unfolding realtime
  realtime_negative n before small = ground arith
