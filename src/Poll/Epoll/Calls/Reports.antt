-- ===== src/Poll/Epoll/Calls/Reports.antt =====
-- What epoll_wait returns.
use junction.Prelude.{
  ℕ, ◌≡◌, ◌≤◌, refl, Bool, true, false, ◌||◌, ◌==◌, if◌then◌else◌, List, length, take, length-take,
  length-map, arith, Bool-cases, inl, inr, Option, Option-cases, none, some, Status, ok, err, Errno,
  ebadf, eintr, einval, other,
}
use junction.Prelude.Int.{ℤ, pos}
use junction.Poll.{Mask}
use junction.Poll.Epoll.{EpollEvent, World, deliver_events}
use junction.Poll.Epoll.Deliver.{event_of, deliver_events_lem}
use junction.Poll.Epoll.Torn.{Moment, ReadyBut, Moment-ReadyBut, all_real, deliver_events_real}
use junction.Poll.Epoll.Calls.{
  FileRef, Wakeup, erestartsys, is_empty, wait_blocked, wait, do_epoll_wait,
}

abbrev pub is_wait_error : Errno → Bool
is_wait_error eintr = true
is_wait_error ebadf = true
is_wait_error einval = true
is_wait_error (other n) = n == erestartsys
is_wait_error _ = false

-- The list that a call reports from, by the worlds at its start and when it runs again.
abbrev pub reported_list : ℕ → World → World → List ℕ
reported_list e w later = if is_empty (w.events e) then later.events e else w.events e

-- At most the entries asked for, each with an event unless its observer is half notified, or one of the
-- errors of the call.
abbrev pub IsReport : (ℕ → Bool) → ℕ → List ℕ → Status (List EpollEvent) → Type 0
IsReport half maxevents os (ok out) = (length out ≤ maxevents) × (all_real half os out ≡ true)
IsReport half maxevents os (err e) = is_wait_error e ≡ true

length-deliver_events : (e room : ℕ) (w : World) → length ((deliver_events e room w).0) ≤ room
length-deliver_events e room w = rw (deliver_events_lem e room w) (
    omega (
      arith,
      length-map (take room (w.events e)) (event_of w.observers),
      length-take room (w.events e),
    ))

module _ (half : ℕ → Bool) (e room : ℕ) where
  deliver_events-IsReport :
      (w : World)
      → ReadyBut half w
      → IsReport half room (w.events e) (ok (deliver_events e room w).0)
  deliver_events-IsReport w v =
      (length-deliver_events e room w, deliver_events_real half e room w v)

  wait_blocked-IsReport :
      (has_timeout : Bool) (wake : Wakeup)
      → ReadyBut half wake.later
      → IsReport half room (wake.later.events e) ((wait_blocked e room has_timeout wake).0)
  unfolding wait_blocked
  wait_blocked-IsReport has_timeout wake v = elim (Bool-cases (is_empty (wake.later.events e))) [
    | inr some_ready ↦ rw some_ready (deliver_events-IsReport wake.later v)
    | inl empty ↦ rw empty (elim (Bool-cases wake.signaled) [
      | inl s ↦ rw s (elim (Bool-cases has_timeout) [ inl t ↦ rw t refl | inr t ↦ rw t refl ])
      | inr s ↦ rw s (omega arith, refl)
    ])
  ]

  wait-IsReport :
      (timeout : Option ℕ) (wake : Wakeup) (w : World)
      → ReadyBut half w
      → ReadyBut half wake.later
      → IsReport half room (reported_list e w wake.later) ((wait e room timeout wake w).0)
  unfolding wait
  wait-IsReport timeout wake w v l = elim (Bool-cases (is_empty (w.events e))) [
    | inr some_ready ↦ rw some_ready (deliver_events-IsReport w v)
    | inl empty ↦ rw empty (elim (Option-cases timeout) [
      | inl n ↦ rw n (wait_blocked-IsReport false wake l)
      | inr (d, t) ↦ rw t (elim (Bool-cases (d == 0)) [
        | inl z ↦ rw z (omega arith, refl)
        | inr z ↦ rw z (wait_blocked-IsReport true wake l)
      ])
    ])
  ]

ReadyBut-more :
    (half more : ℕ → Bool) (w : World)
    → ((o : ℕ) → more o ≡ false → half o ≡ false)
    → ReadyBut half w
    → ReadyBut more w
ReadyBut-more half more w h (listed, known, ready) = (listed, known, λ o n a. ready o (h o n) a)

-- What the call answers on an epoll file, on another file, and on a descriptor that is none.
abbrev pub IsWaitedOn :
    (ℕ → Bool) → ℕ → Option ℕ → World → World → Status (List EpollEvent) → Type 0
IsWaitedOn half maxevents none w later r = r ≡ err einval
IsWaitedOn half maxevents (some e) w later r = IsReport half maxevents (reported_list e w later) r

abbrev pub IsWaited :
    (ℕ → Bool) → ℕ → Option FileRef → World → World → Status (List EpollEvent) → Type 0
IsWaited half maxevents none w later r = r ≡ err ebadf
IsWaited half maxevents (some f) w later r = IsWaitedOn half maxevents f.epoll w later r

abbrev answered : Status (List EpollEvent) × World → Status (List EpollEvent)
answered r = r.0

module _ (half : ℕ → Bool) (maxevents : ℕ) (timeout : Option ℕ) (wake : Wakeup) (w : World)
    (v : ReadyBut half w) (l : ReadyBut half wake.later) where
  wait_file :
      (m : Option ℕ)
      → IsWaitedOn half maxevents m w wake.later
          (answered (elim m [ none ↦ (err einval, w) | some e ↦ wait e maxevents timeout wake w ]))
  wait_file none = refl
  wait_file (some e) = wait-IsReport half e maxevents timeout wake w v l

  wait_on :
      (f : Option FileRef)
      → IsWaited half maxevents f w wake.later (
          answered (elim f [
            | none ↦ (err ebadf, w)
            | some g ↦ elim g.epoll [
              | none ↦ (err einval, w)
              | some e ↦ wait e maxevents timeout wake w
            ]
          ]))
  wait_on none = refl
  wait_on (some f) = wait_file f.epoll

-- epoll_wait with a maxevents that is not negative, on an epoll file, writes at most that many entries, and
-- at most one for each observer on the file's list, or fails with EINTR, EBADF, EINVAL or the request to restart it;
-- on no file it fails with EBADF, and on another with EINVAL. It may look at the list at any moment, also
-- in the middle of Notify, Add and Modify: each entry has an event, unless its observer has been written
-- and not settled yet when the call starts or when it runs again.
pub do_epoll_wait-IsReport :
    (files : ℤ → Option FileRef) (epfd : ℤ) (maxevents : ℕ) (timeout : Option ℕ) (wake : Wakeup)
    (w : World) (masks : ℕ → Mask) (half half_later : ℕ → Bool)
    → Moment masks half w
    → Moment masks half_later wake.later
    → IsWaited
        (λ o. half o || half_later o)
        maxevents
        (files epfd)
        w
        wake.later
        ((do_epoll_wait files epfd (pos maxevents) timeout wake w).0)
unfolding do_epoll_wait
do_epoll_wait-IsReport files epfd maxevents timeout wake w masks half half_later m l =
    let both : ℕ → Bool = λ o. half o || half_later o in
    let v = ReadyBut-more half both w (λ o n. ground (arith, n)) (Moment-ReadyBut masks half w m) in
    let u =
      ReadyBut-more half_later both wake.later (λ o n. ground (arith, n))
        (Moment-ReadyBut masks half_later wake.later l) in
    wait_on both maxevents timeout wake w v u (files epfd)
