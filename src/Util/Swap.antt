-- ===== src/Util/Swap.antt =====
-- mc_swap64, the byte order conversion of memcached-1.4/util.c.
use reading_and_comprehense.Base.{ℕ, ◌<◌, ◌≡◌, arith}
use reading_and_comprehense.Util.{u64_mod, swap_loop, mc_swap64}

-- ntohll undoes htonll.
pub mc_swap64-mc_swap64 : (n : ℕ) → n < u64_mod → mc_swap64 (mc_swap64 n) ≡ n
unfolding mc_swap64 swap_loop
mc_swap64-mc_swap64 n h = omega arith
