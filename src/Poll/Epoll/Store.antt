-- ===== src/Poll/Epoll/Store.antt =====
-- The store of observers: which lists an observer stands on, and what a notification of one does.
use junction.Prelude.{
  ℕ, ◌≡◌, ◌+◌, ◌-◌, ◌≤◌, ◌<◌, refl, Bool, true, false, ◌&&◌, not, ◌==◌, if◌then◌else◌, List, [],
  ◌∷◌, ◌++◌, arith,
}
use junction.Poll.{Mask, edge_bit, hits}
use junction.Poll.Epoll.{
  EPollObserver, World, update, occurs, erase, add_event, remove_event, observer_notify,
}

-- How often an observer stands on a list.
abbrev pub count : ℕ → List ℕ → ℕ
count o [] = 0
count o (p ∷ l) = (if p == o then 1 else 0) + count o l

pub count-append :
    (k o : ℕ) (l : List ℕ) → count k (l ++ o ∷ []) ≡ count k l + (if o == k then 1 else 0)
count-append k o [] = ground arith
count-append k o (p ∷ l) = ground (arith, count-append k o l)

pub count-erase :
    (k o : ℕ) (l : List ℕ) → count k (erase o l) ≡ count k l - (if o == k then 1 else 0)
count-erase k o [] = ground arith
count-erase k o (p ∷ l) = ground (arith, count-erase k o l)

pub occurs-count : (k : ℕ) (l : List ℕ) → occurs k l ≡ not (count k l == 0)
occurs-count k [] = refl
occurs-count k (p ∷ l) = ground (arith, occurs-count k l)

-- How many observers on a list are those of an epoll file.
abbrev pub watchers : ℕ → (ℕ → EPollObserver) → List ℕ → ℕ
watchers e store [] = 0
watchers e store (p ∷ l) = (if (store p).epollf == e then 1 else 0) + watchers e store l

pub watchers_cong :
    (e : ℕ) (store store' : ℕ → EPollObserver) (l : List ℕ)
    → ((k : ℕ) → occurs k l ≡ true → (store k).epollf ≡ (store' k).epollf)
    → watchers e store l ≡ watchers e store' l
watchers_cong e store store' [] h = refl
watchers_cong e store store' (p ∷ l) h =
    ground (arith, h p, watchers_cong e store store' l (λ k m. h k (ground (arith, m))))

pub watchers-append :
    (e o : ℕ) (store : ℕ → EPollObserver) (l : List ℕ)
    → watchers e store (l ++ o ∷ []) ≡ watchers e store l + (if (store o).epollf == e then 1 else 0)
watchers-append e o store [] = ground arith
watchers-append e o store (p ∷ l) = ground (arith, watchers-append e o store l)

pub watchers-erase :
    (e o : ℕ) (store : ℕ → EPollObserver) (l : List ℕ)
    → watchers e store (erase o l) ≤ watchers e store l
watchers-erase e o store [] = omega arith
watchers-erase e o store (p ∷ l) = ground (arith, watchers-erase e o store l)

pub count-watchers :
    (o : ℕ) (store : ℕ → EPollObserver) (l : List ℕ) → count o l ≤ watchers (store o).epollf store l
count-watchers o store [] = omega arith
count-watchers o store (p ∷ l) = ground (arith, count-watchers o store l)

-- An observer stands on the list of ready observers of its epoll file, once, exactly while its flag says
-- so, and on no other.
abbrev pub Listed : World → Type 0
Listed w =
    (e o : ℕ)
    → count o (w.events e)
      ≡ (if (w.observers o).attached && (w.observers o).epollf == e then 1 else 0)

abbrev pub live : World → ℕ → Bool
live w o = occurs o (w.sources (w.observers o).f).epoll_observers

-- A ready observer has an event that it watches, and an observer without edge triggering that has one is
-- ready, while it is on the list of its source.
abbrev pub ExactAt : World → ℕ → Type 0
ExactAt w o =
    ((w.observers o).attached ≡ true
      → hits (w.observers o).triggered_events (w.observers o).watched_events ≡ true)
    × (live w o ≡ true
        → (w.observers o).watched_events edge_bit ≡ false
        → hits (w.observers o).triggered_events (w.observers o).watched_events ≡ true
        → (w.observers o).attached ≡ true)

abbrev pub Exact : World → Type 0
Exact w = (o : ℕ) → ExactAt w o

-- An observer on the list of a source watches this source and has been allocated, and a ready observer is
-- on the list of its source.
abbrev pub Linked : World → Type 0
Linked w =
    ((s o : ℕ)
      → occurs o (w.sources s).epoll_observers ≡ true
      → ((w.observers o).f ≡ s) × (o < w.next))
    × ((o : ℕ) → (w.observers o).attached ≡ true → live w o ≡ true)

-- A source has at most one observer of an epoll file.
abbrev pub Solo : World → Type 0
Solo w = (s e : ℕ) → watchers e w.observers (w.sources s).epoll_observers ≤ 1

abbrev pub Inv : World → Type 0
Inv w = Listed w × Exact w × Linked w × Solo w

abbrev pub notified : EPollObserver → Mask → EPollObserver
notified oe mask = record oe { triggered_events = mask; attached = hits mask oe.watched_events }

-- A notification writes the events of the observer, and makes it ready exactly when it watches one.
pub observer_notify_store :
    (o k : ℕ) (mask : Mask) (w : World)
    → (observer_notify o mask w).observers k
      ≡ update w.observers o (notified (w.observers o) mask) k
unfolding observer_notify add_event remove_event
observer_notify_store o k mask w = ground arith

pub observer_notify_sources :
    (o : ℕ) (mask : Mask) (w : World) → (observer_notify o mask w).sources ≡ w.sources
unfolding observer_notify add_event remove_event
observer_notify_sources o mask w = ground arith

pub observer_notify_next :
    (o : ℕ) (mask : Mask) (w : World) → (observer_notify o mask w).next ≡ w.next
unfolding observer_notify add_event remove_event
observer_notify_next o mask w = ground arith

pub observer_notify-Listed :
    (o : ℕ) (mask : Mask) (w : World) → Listed w → Listed (observer_notify o mask w)
unfolding observer_notify add_event remove_event
observer_notify-Listed o mask w v e k = ground (
  arith,
  v e k,
  v (w.observers o).epollf k,
  v e o,
  count-append k o (w.events (w.observers o).epollf),
  count-erase k o (w.events (w.observers o).epollf),
)

pub remove_event_store :
    (o k : ℕ) (w : World)
    → (remove_event o w).observers k
      ≡ update w.observers o (record (w.observers o) { attached = false }) k
unfolding remove_event
remove_event_store o k w = ground arith

pub remove_event_sources : (o : ℕ) (w : World) → (remove_event o w).sources ≡ w.sources
unfolding remove_event
remove_event_sources o w = ground arith

pub remove_event_next : (o : ℕ) (w : World) → (remove_event o w).next ≡ w.next
unfolding remove_event
remove_event_next o w = ground arith

pub remove_event-Listed : (o : ℕ) (w : World) → Listed w → Listed (remove_event o w)
unfolding remove_event
remove_event-Listed o w v e k = ground (
  arith,
  v e k,
  v (w.observers o).epollf k,
  v e o,
  count-erase k o (w.events (w.observers o).epollf),
)
