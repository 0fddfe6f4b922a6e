-- ===== src/Poll/Epoll/Calls/Control.antt =====
-- epoll_ctl, and whether an epoll file watches a file.
use junction.Prelude.{ℕ, ◌≡◌, ◌≤◌, Status, ok, err, enoent, einval, other}
use junction.Poll.{Mask}
use junction.Poll.Epoll.{World}
use junction.Poll.Epoll.Calls.{
  EpollOp, epoll_ctl_add, epoll_ctl_mod, epoll_ctl_del, epoll_ctl_unknown, eexist,
}
use junction.Poll.Epoll.Calls.Changed.{watching, Watches, Others}

-- What a call answers and changes, by whether the file was watched before. A call that fails changes
-- nothing.
abbrev pub IsControlled : EpollOp → ℕ → ℕ → Mask → ℕ → World → Status ℕ × World → Type 0
IsControlled epoll_ctl_add e s events u64 w r =
    (1 ≤ watching e s w → r ≡ (err (other eexist), w))
    × (watching e s w ≡ 0
        → (r.0 ≡ ok 0)
          × (watching e s (r.1) ≡ 1)
          × Watches e s events u64 (r.1)
          × Others e s w (r.1))
IsControlled epoll_ctl_mod e s events u64 w r =
    (watching e s w ≡ 0 → r ≡ (err enoent, w))
    × (1 ≤ watching e s w
        → (r.0 ≡ ok 0)
          × (watching e s (r.1) ≡ 1)
          × Watches e s events u64 (r.1)
          × Others e s w (r.1))
IsControlled epoll_ctl_del e s events u64 w r =
    (watching e s w ≡ 0 → r ≡ (err enoent, w))
    × (1 ≤ watching e s w → (r.0 ≡ ok 0) × (watching e s (r.1) ≡ 0) × Others e s w (r.1))
IsControlled epoll_ctl_unknown e s events u64 w r = r ≡ (err einval, w)
