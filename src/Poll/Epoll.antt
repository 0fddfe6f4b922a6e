-- ===== src/Poll/Epoll.antt =====
-- fs/poll.cc: EPollFile and EPollObserver, and the part of PollSource (fs/poll.h) that notifies them. The
-- observers stand in a store under their numbers, and a source and an epoll file hold lists of numbers.
-- An operation is one step, under the lock of the source. DeliverEvents takes the lock of the epoll file
-- alone; that it can run in the middle of a notification is shown in Torn.
pub mod Store
pub mod Ready
pub mod Moves
pub mod Deliver
pub mod Sync
pub mod Calls
pub mod OneShot
pub mod Torn
pub mod Steps
use junction.Prelude.{
  ℕ, suc, zero, Bool, true, false, ◌&&◌, ◌||◌, not, ◌==◌, if◌then◌else◌, List, [], ◌∷◌, ◌++◌,
  Option, none, some, Status, ok, err, eintr, enoent, ebadf, other,
}
use junction.Prelude.Int.{ℤ, pos, negsuc}
use junction.Poll.{
  Mask, exclusive_bit, one_shot_bit, edge_bit, hits, contains, mask_or, always_watched,
}

-- `epollf` is the epoll file and `f` the source of the watched file.
pub record EPollObserver : Type 0 where
  pub attached : Bool
  pub one_shot_triggered : Bool
  pub epollf : ℕ
  pub f : ℕ
  pub watched_events : Mask
  pub triggered_events : Mask
  pub user_data : ℕ

pub record PollSource : Type 0 where
  pub event_mask : Mask
  pub epoll_observers : List ℕ

-- `events` is the list of ready observers of each epoll file, and `next` the number of the observer that
-- is allocated next.
pub record World : Type 0 where
  pub observers : ℕ → EPollObserver
  pub sources : ℕ → PollSource
  pub events : ℕ → List ℕ
  pub next : ℕ

abbrev pub update {ℓ} : {A : Type ℓ} → (ℕ → A) → ℕ → A → ℕ → A
update g i a j = if j == i then a else g j

abbrev pub occurs : ℕ → List ℕ → Bool
occurs o [] = false
occurs o (p ∷ l) = p == o || occurs o l

-- Takes an observer off an intrusive list, which it stands on at most once.
abbrev pub erase : ℕ → List ℕ → List ℕ
erase o [] = []
erase o (p ∷ l) = let rest = erase o l in if p == o then l else p ∷ rest

unfoldable pub add_event : ℕ → World → World
add_event o w =
    let oe = w.observers o in
    if oe.attached then w else record w {
      observers = update w.observers o (record oe { attached = true });
      events = update w.events oe.epollf (w.events oe.epollf ++ o ∷ []);
    }

unfoldable pub remove_event : ℕ → World → World
remove_event o w =
    let oe = w.observers o in
    if not oe.attached then w else record w {
      observers = update w.observers o (record oe { attached = false });
      events = update w.events oe.epollf (erase o (w.events oe.epollf));
    }

-- The first half of EPollObserver::Notify, which runs under the lock of the source alone.
abbrev pub set_triggered : ℕ → Mask → World → World
set_triggered o mask w = record w {
  observers = update w.observers o (record (w.observers o) { triggered_events = mask });
}

-- Its second half, which takes the lock of the epoll file; `wanted` tells whether the events that have just
-- been written, and that only a holder of the source's lock writes, have one that is watched.
abbrev pub settle : ℕ → Bool → World → World
settle o wanted w = if wanted then add_event o w else remove_event o w

-- EPollObserver::Notify, where no DeliverEvents runs between its halves; Torn is about one that does.
unfoldable pub observer_notify : ℕ → Mask → World → World
unfolding add_event remove_event
observer_notify o mask w =
    settle o (hits mask (w.observers o).watched_events) (set_triggered o mask w)

-- The one-shot flag of an observer, exchanged.
abbrev pub shot : ℕ → World → World
shot o w =
    if (w.observers o).watched_events one_shot_bit
    then record w {
      observers = update w.observers o (record (w.observers o) { one_shot_triggered = true });
    }
    else w

abbrev pub spent : EPollObserver → Bool
spent oe = oe.watched_events one_shot_bit && oe.one_shot_triggered

-- The body of the loop of EPollFile::Notify; the Boolean is `exclusive`.
unfoldable pub notify_one : ℕ → Bool → Mask → World → World
unfolding observer_notify
notify_one o exclusive mask w =
    let oe = w.observers o in
    if spent oe || oe.watched_events exclusive_bit && exclusive
    then shot o w
    else observer_notify o mask (shot o w)

unfoldable pub notify_loop : List ℕ → Bool → Mask → World → World
unfolding notify_one
notify_loop [] exclusive mask w = w
notify_loop (o ∷ os) exclusive mask w =
    let oe = w.observers o in
    notify_loop os (exclusive || oe.watched_events exclusive_bit && not (spent oe)) mask
      (notify_one o exclusive mask w)

-- PollSource::Notify, of which the observers of poll() and select() are not in this model.
unfoldable pub source_notify : ℕ → World → World
unfolding notify_loop
source_notify s w = notify_loop (w.sources s).epoll_observers false (w.sources s).event_mask w

abbrev pub set_mask : ℕ → Mask → World → World
set_mask s mask w = record w {
  sources = update w.sources s (record (w.sources s) { event_mask = mask });
}

unfoldable pub source_set : ℕ → Mask → Bool → World → World
unfolding source_notify
source_set s mask force_notify w =
    let cur = (w.sources s).event_mask in
    if contains cur mask && not force_notify
    then w
    else source_notify s (set_mask s (mask_or cur mask) w)

unfoldable pub source_clear : ℕ → Mask → World → World
unfolding source_notify
source_clear s mask w =
    let cur = (w.sources s).event_mask in
    if not (hits cur mask) then w else source_notify s (set_mask s (λ k. cur k && not (mask k)) w)

-- The observer of an epoll file in the list of a source.
unfoldable pub find : ℕ → List ℕ → World → Option ℕ
find e [] w = none
find e (o ∷ os) w = let rest = find e os w in if (w.observers o).epollf == e then some o else rest

-- EPollFile::Add; the Boolean tells whether the file was not watched yet.
unfoldable pub add : ℕ → ℕ → Mask → ℕ → Bool → Mask → World → Bool × World
unfolding find observer_notify
add e s events user_data one_shot_triggered triggered_events w =
    elim (find e (w.sources s).epoll_observers w) [
      | some o ↦ (false, w)
      | none ↦
          let src = w.sources s in
          let o : EPollObserver = record {
            attached = false;
            one_shot_triggered = one_shot_triggered;
            epollf = e;
            f = s;
            watched_events = always_watched events;
            triggered_events = λ k. false;
            user_data = user_data;
          } in
          let linked = record w {
            observers = update w.observers w.next o;
            sources =
                update w.sources s
                  (record src { epoll_observers = src.epoll_observers ++ w.next ∷ [] });
            next = suc w.next;
          } in
          (true, observer_notify w.next (mask_or src.event_mask triggered_events) linked)
    ]

unfoldable pub modify : ℕ → ℕ → Mask → ℕ → World → Bool × World
unfolding find observer_notify
modify e s events user_data w = elim (find e (w.sources s).epoll_observers w) [
  | none ↦ (false, w)
  | some o ↦
      let oe = w.observers o in
      let changed = record w {
        observers = update w.observers o (record oe {
          watched_events = always_watched events;
          user_data = user_data;
          one_shot_triggered = false;
        });
      } in
      (true, observer_notify o oe.triggered_events changed)
]

-- EPollFile::Delete, with the destructor of the observer.
unfoldable pub delete : ℕ → ℕ → World → Bool × World
unfolding find remove_event
delete e s w = elim (find e (w.sources s).epoll_observers w) [
  | none ↦ (false, w)
  | some o ↦
      let src = w.sources s in
      let unlinked = record w {
        sources = update w.sources s (record src { epoll_observers = erase o src.epoll_observers });
      } in
      (true, remove_event o unlinked)
]

pub record EpollEvent : Type 0 where
  pub events : Mask
  pub user_data : ℕ

-- The loop of DeliverEvents: what is written out, the observers moved to the end, those left in front,
-- and the store.
unfoldable pub deliver_loop :
    ℕ → List ℕ → (ℕ → EPollObserver) → List EpollEvent × List ℕ × List ℕ × (ℕ → EPollObserver)
deliver_loop zero os store = ([], [], os, store)
deliver_loop (suc room) [] store = ([], [], [], store)
deliver_loop (suc room) (o ∷ os) store =
    let oe = store o in
    let edge = oe.watched_events edge_bit in
    let ev : EpollEvent = record {
      events = λ k. oe.triggered_events k && oe.watched_events k;
      user_data = oe.user_data;
    } in
    let (out, tmp, rest, store') =
      deliver_loop room os
        (if edge then update store o (record oe { attached = false }) else store) in
    (ev ∷ out, (if edge then tmp else o ∷ tmp), rest, store')

-- Under the lock of the epoll file.
unfoldable pub deliver_events : ℕ → ℕ → World → List EpollEvent × World
unfolding deliver_loop
deliver_events e room w =
    let (out, tmp, rest, store) = deliver_loop room (w.events e) w.observers in
    (out, record w { observers = store; events = update w.events e (rest ++ tmp) })
