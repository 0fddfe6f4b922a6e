-- ===== src/Poll.antt =====
-- fs/poll.h and fs/poll.cc: event masks and the files that wait for events. A mask is a function on bit
-- numbers, of which the code has the bits 0 to 31.
pub mod Epoll
pub mod Request
pub mod Select
mod Tests
use junction.Prelude.{ℕ, zero, suc, Bool, true, false, ◌&&◌, ◌||◌, not, ◌==◌}

abbrev pub Mask : Type 0
Mask = ℕ → Bool

-- The bits of EPOLLERR, EPOLLHUP, EPOLLEXCLUSIVE, EPOLLONESHOT and EPOLLET.
abbrev pub err_bit : ℕ
err_bit = 3

abbrev pub hup_bit : ℕ
hup_bit = 4

abbrev pub exclusive_bit : ℕ
exclusive_bit = 28

abbrev pub one_shot_bit : ℕ
one_shot_bit = 30

abbrev pub edge_bit : ℕ
edge_bit = 31

unfoldable pub any_below : ℕ → Mask → Bool
any_below zero m = false
any_below (suc n) m = m n || any_below n m

-- (a & b) != 0
unfoldable pub hits : Mask → Mask → Bool
unfolding any_below
hits a b = any_below 32 (λ k. a k && b k)

-- (cur & m) == m
unfoldable pub contains : Mask → Mask → Bool
unfolding any_below
contains cur m = not (any_below 32 (λ k. m k && not (cur k)))

abbrev pub mask_or : Mask → Mask → Mask
mask_or a b k = a k || b k

-- events |= (kPollHUp | kPollErr)
abbrev pub always_watched : Mask → Mask
always_watched events k = k == err_bit || k == hup_bit || events k
