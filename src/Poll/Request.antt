-- ===== src/Poll/Request.antt =====
-- fs/poll.cc: DoPoll. A short is a mask of 16 bits, of which bit 15 is the sign. The files are a function
-- from descriptors to the masks of their sources; what happens while the thread is blocked is the list of
-- the triggers that fire.
pub mod Count
use junction.Prelude.{
  ℕ, zero, suc, ◌+◌, ◌-◌, Bool, true, false, not, ◌==◌, ◌&&◌, ◌||◌, if◌then◌else◌, ltb, List, [],
  ◌∷◌, Option, none, some, get_elem?, set, Status, ok, err, eintr, other,
}
use junction.Prelude.Int.{ℤ}
use junction.Poll.{Mask, any_below, always_watched}

pub record PollFd : Type 0 where
  pub fd : ℤ
  pub events : Mask
  pub revents : Mask

abbrev pub nval_bit : ℕ
nval_bit = 5

abbrev pub sign_bit : ℕ
sign_bit = 15

-- revents != 0 and revents > 0
unfoldable pub is_set : Mask → Bool
unfolding any_below
is_set m = any_below 16 m

unfoldable pub is_positive : Mask → Bool
unfolding is_set
is_positive m = is_set m && not (m sign_bit)

-- events & (entry.events | kPollErr | kPollHUp)
abbrev pub reported : Mask → Mask → Mask
reported pev wanted k = ltb k 16 && pev k && always_watched wanted k

-- The check of one entry: whether it has events, and which.
unfoldable pub poll_check_one : Option Mask → Mask → Bool × Mask
unfolding is_set
poll_check_one none events = (true, λ k. k == nval_bit)
poll_check_one (some src) events = (is_set (reported src events), reported src events)

-- The check of each file: how many entries have events, and the entries.
unfoldable pub poll_check : (ℤ → Option Mask) → List PollFd → ℕ × List PollFd
unfolding poll_check_one
poll_check files [] = (0, [])
poll_check files (p ∷ ps) =
    let (has_events, revents) = poll_check_one (files p.fd) p.events in
    let (nevents, rest) = poll_check files ps in
    ((if has_events then suc nevents else nevents), record p { revents = revents } ∷ rest)

-- The trigger of an entry, with the number of entries that have events.
unfoldable pub poll_trigger : ℕ → Mask → ℕ × List PollFd → ℕ × List PollFd
unfolding is_positive
poll_trigger i pev (nevents, fds) = elim (get_elem? fds i) [
  | none ↦ (nevents, fds)
  | some entry ↦
      let revents = reported pev entry.events in
      (
        nevents
            + (if is_positive revents then 1 else 0)
            - (if is_positive entry.revents then 1 else 0),
        set fds i (record entry { revents = revents }),
      )
]

unfoldable pub poll_triggers : List (ℕ × Mask) → ℕ × List PollFd → ℕ × List PollFd
unfolding poll_trigger
poll_triggers [] s = s
poll_triggers ((i, pev) ∷ fired) s = poll_triggers fired (poll_trigger i pev s)

-- What happens while the thread is blocked, until its loop ends.
pub record Blocked : Type 0 where
  pub fired : List (ℕ × Mask)
  pub signaled : Bool

-- The time limit is in the units of the clock.
unfoldable pub is_zero : Option ℕ → Bool
is_zero none = false
is_zero (some d) = d == 0

unfoldable pub poll_error : Option ℕ → Status ℕ
poll_error none = err (other 512)
poll_error (some d) = err eintr

unfoldable pub poll_blocked : Option ℕ → Blocked → ℕ × List PollFd → Status ℕ × List PollFd
unfolding poll_triggers poll_error
poll_blocked timeout run s =
    let (nevents, fds) = poll_triggers run.fired s in
    if nevents == 0 && run.signaled then (poll_error timeout, fds) else (ok nevents, fds)

unfoldable pub do_poll :
    (ℤ → Option Mask) → List PollFd → Option ℕ → Blocked → Status ℕ × List PollFd
unfolding poll_check poll_blocked is_zero
do_poll files fds timeout run =
    let (nevents, checked) = poll_check files fds in
    if not (nevents == 0) || is_zero timeout
    then (ok nevents, checked)
    else poll_blocked timeout run (nevents, checked)
