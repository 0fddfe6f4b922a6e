-- ===== src/Time/Tests.antt =====
-- Runs of time.h.
use junction.Prelude.{ℕ}
use junction.Time.{Timespec}

abbrev noon : ℕ
noon = 1234567

abbrev later : ℕ
later = 2000000

abbrev half_past : Timespec
half_past = record { tv_sec = 1; tv_nsec = 500000000 }
