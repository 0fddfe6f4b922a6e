-- ===== src/Poll/Request/Count.antt =====
-- The number that poll() returns against the entries it leaves.
use junction.Prelude.{
  ℕ, zero, suc, ◌≡◌, ◌+◌, ◌-◌, refl, sym, Bool, true, false, ◌&&◌, ◌||◌, not, ◌==◌, if◌then◌else◌,
  List, [], ◌∷◌, get_elem?, set, arith, Bool-cases, inl, inr, Option, none, some, Status, ok, err,
}
use junction.Prelude.Int.{ℤ}
use junction.Poll.{Mask, any_below}
use junction.Poll.Request.{
  PollFd, nval_bit, sign_bit, is_set, is_positive, reported, poll_check_one, poll_check,
  poll_trigger, poll_triggers, Blocked, is_zero, poll_error, poll_blocked, do_poll,
}

abbrev pub with_events : List PollFd → ℕ
with_events [] = 0
with_events (p ∷ ps) = (if is_set p.revents then 1 else 0) + with_events ps

-- No entry has the sign bit.
abbrev pub all_plain : List PollFd → Bool
all_plain [] = true
all_plain (p ∷ ps) = not (p.revents sign_bit) && all_plain ps

abbrev pub fired_plain : List (ℕ × Mask) → Bool
fired_plain [] = true
fired_plain ((i, pev) ∷ fired) = not (pev sign_bit) && fired_plain fired

nval-is_set : is_set (λ k. k == nval_bit) ≡ true
unfolding is_set any_below
nval-is_set = refl

check_one_is_set :
    (src : Option Mask) (events : Mask)
    → (poll_check_one src events).0 ≡ is_set ((poll_check_one src events).1)
unfolding poll_check_one
check_one_is_set none events = sym nval-is_set
check_one_is_set (some src) events = refl

abbrev pub SignFree : Option Mask → Type 0
SignFree none = false ≡ false
SignFree (some src) = src sign_bit ≡ false

check_one_plain :
    (src : Option Mask) (events : Mask)
    → SignFree src
    → (poll_check_one src events).1 sign_bit ≡ false
unfolding poll_check_one
check_one_plain none events h = refl
check_one_plain (some src) events h = ground (arith, h)

add_entry :
    (b t : Bool) (n m : ℕ) → b ≡ t → n ≡ m → (if b then suc n else n) ≡ (if t then 1 else 0) + m
add_entry b t n m e f = ground (arith, e, f)

poll_check_count :
    (files : ℤ → Option Mask) (fds : List PollFd)
    → (poll_check files fds).0 ≡ with_events ((poll_check files fds).1)
unfolding poll_check
poll_check_count files [] = refl
poll_check_count files (p ∷ ps) =
    add_entry ((poll_check_one (files p.fd) p.events).0)
      (is_set ((poll_check_one (files p.fd) p.events).1)) ((poll_check files ps).0)
      (with_events ((poll_check files ps).1)) (check_one_is_set (files p.fd) p.events)
      (poll_check_count files ps)

poll_check_plain :
    (files : ℤ → Option Mask) (fds : List PollFd)
    → ((fd : ℤ) → SignFree (files fd))
    → all_plain ((poll_check files fds).1) ≡ true
unfolding poll_check
poll_check_plain files [] h = refl
poll_check_plain files (p ∷ ps) h =
    ground (arith, check_one_plain (files p.fd) p.events (h p.fd), poll_check_plain files ps h)

-- A write of an entry whose events and those of the old one have no sign bit.
set_count :
    (fds : List PollFd) (i : ℕ) (old new : PollFd)
    → get_elem? fds i ≡ some old
    → with_events (set fds i new) + (if is_set old.revents then 1 else 0)
      ≡ with_events fds + (if is_set new.revents then 1 else 0)
set_count [] i old new h = absurd (cc h)
set_count (p ∷ ps) zero old new h = ground (arith, h)
set_count (p ∷ ps) (suc i) old new h = ground (arith, set_count ps i old new h)

set_plain :
    (fds : List PollFd) (i : ℕ) (new : PollFd)
    → all_plain fds ≡ true
    → new.revents sign_bit ≡ false
    → all_plain (set fds i new) ≡ true
set_plain [] i new a h = refl
set_plain (p ∷ ps) zero new a h = ground (arith, a, h)
set_plain (p ∷ ps) (suc i) new a h = ground (arith, a, set_plain ps i new (ground (arith, a)) h)

get_plain :
    (fds : List PollFd) (i : ℕ) (p : PollFd)
    → all_plain fds ≡ true
    → get_elem? fds i ≡ some p
    → p.revents sign_bit ≡ false
get_plain [] i p a h = absurd (cc h)
get_plain (q ∷ qs) zero p a h = ground (arith, a, h)
get_plain (q ∷ qs) (suc i) p a h = get_plain qs i p (ground (arith, a)) h

-- The number agrees with the entries, and no entry has the sign bit.
abbrev Counted : ℕ × List PollFd → Type 0
Counted r = (r.0 ≡ with_events (r.1)) × (all_plain (r.1) ≡ true)

swap_entry :
    (new old new_sign old_sign : Bool) (nevents before later : ℕ)
    → nevents ≡ before
    → new_sign ≡ false
    → old_sign ≡ false
    → later + (if old then 1 else 0) ≡ before + (if new then 1 else 0)
    → nevents + (if new && not new_sign then 1 else 0) - (if old && not old_sign then 1 else 0)
      ≡ later
swap_entry new old new_sign old_sign nevents before later c n o e = ground (arith, c, n, o, e)

trigger_case :
    (i : ℕ) (pev : Mask) (nevents : ℕ) (fds : List PollFd) (r : Option PollFd)
    → get_elem? fds i ≡ r
    → pev sign_bit ≡ false
    → Counted (nevents, fds)
    → Counted (elim r [
      | none ↦ (nevents, fds)
      | some entry ↦
          let revents = reported pev entry.events in
          (
            nevents
                + (if is_positive revents then 1 else 0)
                - (if is_positive entry.revents then 1 else 0),
            set fds i (record entry { revents = revents }),
          )
    ])
unfolding is_positive
trigger_case i pev nevents fds none g h c = c
trigger_case i pev nevents fds (some entry) g h (c, a) =
    let new : PollFd = record entry { revents = reported pev entry.events } in
    let old_sign = get_plain fds i entry a g in
    let new_sign : new.revents sign_bit ≡ false = ground (arith, h) in
    (
      swap_entry (is_set new.revents) (is_set entry.revents) (new.revents sign_bit)
          (entry.revents sign_bit) nevents (with_events fds) (with_events (set fds i new)) c
          new_sign old_sign (set_count fds i entry new g),
      set_plain fds i new a new_sign,
    )

triggers-Counted :
    (fired : List (ℕ × Mask)) (s : ℕ × List PollFd)
    → fired_plain fired ≡ true
    → Counted s
    → Counted (poll_triggers fired s)
unfolding poll_triggers poll_trigger
triggers-Counted [] s h c = c
triggers-Counted ((i, pev) ∷ fired) (nevents, fds) h c =
    triggers-Counted fired (poll_trigger i pev (nevents, fds)) (ground (arith, h))
      (trigger_case i pev nevents fds (get_elem? fds i) refl (ground (arith, h)) c)

-- The return value of poll() against the entries.
abbrev pub IsPolled : Status ℕ × List PollFd → Type 0
IsPolled (ok n, fds) = n ≡ with_events fds
IsPolled (err e, fds) = with_events fds ≡ 0

error-IsPolled :
    (timeout : Option ℕ) (fds : List PollFd)
    → with_events fds ≡ 0
    → IsPolled (poll_error timeout, fds)
unfolding poll_error
error-IsPolled none fds h = h
error-IsPolled (some d) fds h = h

blocked-IsPolled :
    (timeout : Option ℕ) (signaled : Bool) (s : ℕ × List PollFd)
    → Counted s
    → IsPolled (if s.0 == 0 && signaled then (poll_error timeout, s.1) else (ok (s.0), s.1))
blocked-IsPolled timeout signaled (nevents, fds) (c, a) =
    elim (Bool-cases (nevents == 0 && signaled)) [
      | inl e ↦ rw e (error-IsPolled timeout fds (ground (arith, c, e)))
      | inr e ↦ rw e c
    ]

-- poll() returns the number of entries that have events, at once or after any triggers while it is
-- blocked, and fails only when no entry has one; the masks of the sources have no bit 15.
pub do_poll-IsPolled :
    (files : ℤ → Option Mask) (fds : List PollFd) (timeout : Option ℕ) (run : Blocked)
    → ((fd : ℤ) → SignFree (files fd))
    → fired_plain run.fired ≡ true
    → IsPolled (do_poll files fds timeout run)
unfolding do_poll poll_blocked
do_poll-IsPolled files fds timeout run h f =
    let r = poll_check files fds in
    let c : Counted r = (poll_check_count files fds, poll_check_plain files fds h) in
    elim (Bool-cases (not (r.0 == 0) || is_zero timeout)) [
      | inl e ↦ rw e (c.0)
      | inr e ↦ rw e (
          blocked-IsPolled timeout run.signaled (poll_triggers run.fired r)
            (triggers-Counted run.fired r f c))
    ]
