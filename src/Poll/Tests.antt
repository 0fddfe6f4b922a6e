-- ===== src/Poll/Tests.antt =====
-- Runs of the calls on one file that is readable.
use junction.Prelude.{
  ℕ, ◌≡◌, refl, true, false, ◌==◌, ◌||◌, if◌then◌else◌, [], ◌∷◌, Option, none, some, arith,
}
use junction.Prelude.Int.{ℤ, pos}
use junction.Poll.{Mask, one_shot_bit, any_below, hits, contains}
use junction.Poll.Epoll.{
  World, update, set_triggered, add_event, remove_event, observer_notify, find, add, source_set,
}
use junction.Poll.Epoll.Store.{count}
use junction.Poll.Epoll.Steps.{start, Reach, begin, after, adds, reached_ready}
use junction.Poll.Epoll.Deliver.{event_of}
use junction.Poll.Epoll.Torn.{Moment, whole, begins}
use junction.Poll.Epoll.Calls.{FileRef, Wakeup, do_epoll_wait}
use junction.Poll.Epoll.Calls.Reports.{IsWaited, do_epoll_wait-IsReport}
use junction.Poll.Epoll.Calls.Fair.{waits, IsAmong, waits-IsAmong}
use junction.Poll.Epoll.OneShot.{one_shot_missed}
use junction.Poll.Request.{PollFd, Blocked, do_poll}
use junction.Poll.Request.Count.{IsPolled, do_poll-IsPolled}
use junction.Poll.Select.{FdSets, meets, do_select}
use junction.Poll.Select.Whole.{IsSelected, do_select-IsSelected}

abbrev readable : Mask
readable k = k == 0

-- One epoll file that watches one source, which is readable.
abbrev masks : ℕ → Mask
masks s = readable

abbrev watched : World
watched = (add 0 5 readable 7 false (λ k. false) (start masks)).1

abbrev watched-Reach : Reach masks watched
watched-Reach = after begin (adds 0 5 readable 7 refl)

reached_ready_example : count 0 (watched.events (watched.observers 0).epollf) ≡ (
    if hits
      (watched.sources (watched.observers 0).f).event_mask
      (watched.observers 0).watched_events
    then 1
    else 0)
unfolding add find observer_notify add_event remove_event hits any_below
reached_ready_example = reached_ready masks watched 0 watched-Reach (tt, tt) refl refl refl

abbrev one_epoll : ℤ → Option FileRef
one_epoll fd = some (record { source = 1; epoll = some 0 })

-- The source stops being readable, and the call looks at the list between the halves of the notification.
abbrev half_way : World
half_way = set_triggered 0 (λ k. false) watched

abbrev no_change : Wakeup
no_change = record { later = half_way; signaled = false }

half_way-Moment : Moment masks (update (λ o. false) 0 true) half_way
half_way-Moment = begins 0 (λ k. false) (whole watched-Reach refl) refl refl

do_epoll_wait-IsReport_example :
    IsWaited
      (λ o. update (λ o. false) 0 true o || update (λ o. false) 0 true o)
      8
      (one_epoll (pos 3))
      half_way
      half_way
      ((do_epoll_wait one_epoll (pos 3) (pos 8) (some 0) no_change half_way).0)
do_epoll_wait-IsReport_example =
    do_epoll_wait-IsReport one_epoll (pos 3) 8 (some 0) no_change half_way masks
      (update (λ o. false) 0 true) (update (λ o. false) 0 true) half_way-Moment half_way-Moment

waits-IsAmong_example : IsAmong (event_of watched.observers 0) (waits 0 8 1 watched)
unfolding add find observer_notify add_event remove_event hits any_below
waits-IsAmong_example = waits-IsAmong 0 8 1 0 0 watched refl (omega arith)

-- A one-shot observer that watches for room to write (bit 2), of a source without events.
abbrev writable_once : Mask
writable_once k = k == 2 || k == one_shot_bit

abbrev armed : World
armed = (add 0 5 writable_once 7 false (λ k. false) (start (λ s k. false))).1

one_shot_missed_example :
    ((source_set 5 (λ k. k == 2) false (source_set 5 readable false armed)).observers 0).attached
    ≡ false
unfolding add find observer_notify add_event remove_event hits any_below contains
one_shot_missed_example =
    one_shot_missed 5 0 readable (λ k. k == 2) armed refl refl refl refl refl refl

abbrev one_file : ℤ → Option Mask
one_file fd = some readable

abbrev wants_read : PollFd
wants_read = record { fd = pos 3; events = readable; revents = λ k. false }

abbrev quiet : Blocked
quiet = record { fired = []; signaled = false }

do_poll-IsPolled_example : IsPolled (do_poll one_file (wants_read ∷ []) none quiet)
do_poll-IsPolled_example = do_poll-IsPolled one_file (wants_read ∷ []) none quiet (λ fd. refl) refl

abbrev read_three : FdSets
read_three = record { readfds = some (λ k. k == 3); writefds = none; exceptfds = none }

do_select-IsSelected_example :
    IsSelected 4 (λ j. readable) read_three (do_select 4 read_three (λ j. some readable) none quiet)
unfolding meets
do_select-IsSelected_example =
    do_select-IsSelected 4 read_three (λ j. some readable) (λ j. readable) none quiet (omega arith)
      (λ j b h. refl) (λ z. omega arith)

abbrev wants_more : Mask
wants_more k = k == 0 || k == 2
