-- ===== src/Poll/Epoll/Calls.antt =====
-- fs/poll.cc: EPollFile::Wait and the epoll system calls. Of the file table the calls use Get alone; it is
-- a function from descriptors to the source of a file and, for an epoll file, its number.
pub mod Reports
pub mod Fair
pub mod Changed
pub mod Control
use junction.Prelude.{
  ℕ, zero, suc, Bool, true, false, not, ◌==◌, ◌&&◌, if◌then◌else◌, List, [], ◌∷◌, ◌++◌, Option,
  none, some, Status, ok, err, eintr, enoent, ebadf, einval, other,
}
use junction.Prelude.Int.{ℤ, pos, negsuc}
use junction.Poll.{Mask}
use junction.Poll.Epoll.{World, EpollEvent, add, modify, delete, deliver_events}

pub record FileRef : Type 0 where
  pub source : ℕ
  pub epoll : Option ℕ

abbrev pub eexist : ℕ
eexist = 17

abbrev pub erestartsys : ℕ
erestartsys = 512

pub is_empty : List ℕ → Bool
is_empty [] = true
is_empty (o ∷ os) = false

-- What comes of the blocking: the world when the thread runs again, and whether a signal woke it.
pub record Wakeup : Type 0 where
  pub later : World
  pub signaled : Bool

-- The return values of Wait once it has blocked.
unfoldable pub wait_blocked : ℕ → ℕ → Bool → Wakeup → Status (List EpollEvent) × World
unfolding is_empty
wait_blocked e room has_timeout wake =
    let t = wake.later in
    if not (is_empty (t.events e))
    then (ok (deliver_events e room t).0, (deliver_events e room t).1)
    else if wake.signaled
    then (err (if has_timeout then eintr else other erestartsys), t)
    else (ok [], t)

unfoldable pub wait : ℕ → ℕ → Option ℕ → Wakeup → World → Status (List EpollEvent) × World
unfolding wait_blocked
wait e room timeout wake w =
    if not (is_empty (w.events e))
    then (ok (deliver_events e room w).0, (deliver_events e room w).1)
    else elim timeout [
      | none ↦ wait_blocked e room false wake
      | some d ↦ if d == 0 then (ok [], w) else wait_blocked e room true wake
    ]

unfoldable pub do_epoll_wait :
    (ℤ → Option FileRef) → ℤ → ℤ → Option ℕ → Wakeup → World → Status (List EpollEvent) × World
unfolding wait
do_epoll_wait files epfd (negsuc n) timeout wake w = (err einval, w)
do_epoll_wait files epfd (pos maxevents) timeout wake w = elim (files epfd) [
  | none ↦ (err ebadf, w)
  | some f ↦ elim f.epoll [ none ↦ (err einval, w) | some e ↦ wait e maxevents timeout wake w ]
]

pub data EpollOp : Type 0 where
  epoll_ctl_add epoll_ctl_mod epoll_ctl_del epoll_ctl_unknown : EpollOp

abbrev or_error : ℕ → Bool × World → Status ℕ × World
or_error e (true, w) = (ok 0, w)
or_error e (false, w) = (err (other e), w)

abbrev or_enoent : Bool × World → Status ℕ × World
or_enoent (true, w) = (ok 0, w)
or_enoent (false, w) = (err enoent, w)

unfoldable pub epoll_ctl_op : EpollOp → ℕ → ℕ → Mask → ℕ → World → Status ℕ × World
epoll_ctl_op epoll_ctl_add e s events u64 w =
    or_error eexist (add e s events u64 false (λ k. false) w)
epoll_ctl_op epoll_ctl_mod e s events u64 w = or_enoent (modify e s events u64 w)
epoll_ctl_op epoll_ctl_del e s events u64 w = or_enoent (delete e s w)
epoll_ctl_op epoll_ctl_unknown e s events u64 w = (err einval, w)

unfoldable pub usys_epoll_ctl :
    (ℤ → Option FileRef) → ℤ → EpollOp → ℤ → Mask → ℕ → World → Status ℕ × World
unfolding epoll_ctl_op
usys_epoll_ctl files epfd op fd events u64 w = elim (files epfd) [
  | none ↦ (err ebadf, w)
  | some f ↦ elim f.epoll [
    | none ↦ (err einval, w)
    | some e ↦ elim (files fd) [
      | none ↦ (err ebadf, w)
      | some g ↦ epoll_ctl_op op e g.source events u64 w
    ]
  ]
]

-- What EpollObserverSave writes, and EpollObserverLoad, which adds the observer again.
pub record SavedObserver : Type 0 where
  pub epf : ℕ
  pub file : ℕ
  pub watched_events : Mask
  pub user_data : ℕ
  pub one_shot_triggered : Bool
  pub triggered_events : Mask

unfoldable pub epoll_observer_save : ℕ → World → SavedObserver
epoll_observer_save o w =
    let oe = w.observers o in
    record {
      epf = oe.epollf;
      file = oe.f;
      watched_events = oe.watched_events;
      user_data = oe.user_data;
      one_shot_triggered = oe.one_shot_triggered;
      triggered_events = oe.triggered_events;
    }

unfoldable pub epoll_observer_load : SavedObserver → World → World
epoll_observer_load r w =
    (add r.epf r.file r.watched_events r.user_data r.one_shot_triggered r.triggered_events w).1
