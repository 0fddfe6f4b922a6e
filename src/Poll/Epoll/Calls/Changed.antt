-- ===== src/Poll/Epoll/Calls/Changed.antt =====
-- What Add, Modify and Delete change: the observers of a file, and those of other files.
use junction.Prelude.{ℕ, ◌≡◌, ◌≤◌, ◌+◌, true, false, ◌&&◌, ◌==◌, List, [], ◌∷◌, arith}
use junction.Poll.{Mask, always_watched}
use junction.Poll.Epoll.{EPollObserver, World, occurs, erase, observer_notify, remove_event}
use junction.Poll.Epoll.Store.{
  watchers, watchers_cong, watchers-append, live, Inv, observer_notify_store,
  observer_notify_sources, remove_event_store, remove_event_sources,
}
use junction.Poll.Epoll.Moves.{linked_world, changed_world, unlinked_world, occurs_append}

-- How many observers of an epoll file a source has: at most one, where the invariant holds.
abbrev pub watching : ℕ → ℕ → World → ℕ
watching e s w = watchers e w.observers (w.sources s).epoll_observers

-- The observer of a file has what the caller has asked for, and can report a one-shot event again.
abbrev pub Watches : ℕ → ℕ → Mask → ℕ → World → Type 0
Watches e s events u64 t =
    (o : ℕ)
    → occurs o (t.sources s).epoll_observers ≡ true
    → (t.observers o).epollf ≡ e
    → (t.observers o).watched_events ≡ always_watched events
      × ((t.observers o).user_data ≡ u64)
      × ((t.observers o).one_shot_triggered ≡ false)

-- The observers that watch another file, or for another epoll file, stay as they are.
abbrev pub Others : ℕ → ℕ → World → World → Type 0
Others e s w t =
    (o : ℕ)
    → live w o ≡ true
    → ((w.observers o).f == s && (w.observers o).epollf == e) ≡ false
    → t.observers o ≡ w.observers o

some_watching :
    (e o : ℕ) (store : ℕ → EPollObserver) (l : List ℕ)
    → occurs o l ≡ true
    → (store o).epollf ≡ e
    → 1 ≤ watchers e store l
some_watching e o store [] m i = absurd (cc m)
some_watching e o store (p ∷ l) m i = ground (arith, m, i, some_watching e o store l)

watchers-erase_one :
    (e o : ℕ) (store : ℕ → EPollObserver) (l : List ℕ)
    → occurs o l ≡ true
    → (store o).epollf ≡ e
    → watchers e store (erase o l) + 1 ≡ watchers e store l
watchers-erase_one e o store [] m i = absurd (cc m)
watchers-erase_one e o store (p ∷ l) m i = ground (arith, m, i, watchers-erase_one e o store l)

-- Two observers of one epoll file count twice.
two_watching :
    (e i o : ℕ) (store : ℕ → EPollObserver) (l : List ℕ)
    → occurs i l ≡ true
    → occurs o l ≡ true
    → (i == o) ≡ false
    → (store i).epollf ≡ e
    → (store o).epollf ≡ e
    → 2 ≤ watchers e store l
two_watching e i o store [] m n d f g = absurd (cc m)
two_watching e i o store (p ∷ l) m n d f g = ground (
  arith,
  m,
  n,
  d,
  f,
  g,
  two_watching e i o store l,
  some_watching e i store l,
  some_watching e o store l,
)

module _ (e s : ℕ) (w : World) (v : Inv w) where
  at_most_one : watching e s w ≤ 1
  at_most_one = v.3 s e

  notify_watching :
      (o : ℕ) (mask : Mask) (t : World) → watching e s (observer_notify o mask t) ≡ watching e s t
  notify_watching o mask t = ground (
    arith,
    observer_notify_sources o mask t,
    watchers_cong e (observer_notify o mask t).observers t.observers (t.sources s).epoll_observers
        (λ k m. ground (arith, observer_notify_store o k mask t)),
  )

  pub added :
      (events : Mask) (user_data : ℕ) (mask : Mask)
      → watching e s w ≡ 0
      → watching e s (observer_notify w.next mask (linked_world e s events user_data false w)) ≡ 1
  added events user_data mask none_yet =
      let t = linked_world e s events user_data false w in
      let old =
        watchers_cong e t.observers w.observers (w.sources s).epoll_observers
          (λ k m. ground (arith, v.2.0 s k, m)) in
      ground (
        arith,
        notify_watching w.next mask t,
        old,
        none_yet,
        watchers-append e w.next t.observers (w.sources s).epoll_observers,
      )

  pub deleted :
      (o : ℕ)
      → occurs o (w.sources s).epoll_observers ≡ true
      → (w.observers o).epollf ≡ e
      → watching e s (remove_event o (unlinked_world o s w)) ≡ 0
  deleted o m i =
      let t = unlinked_world o s w in
      let l = erase o (w.sources s).epoll_observers in
      ground (
        arith,
        at_most_one,
        remove_event_sources o t,
        watchers-erase_one e o w.observers (w.sources s).epoll_observers m i,
        watchers_cong e (remove_event o t).observers w.observers l
            (λ k n. ground (arith, remove_event_store o k t)),
      )

  pub changed :
      (o : ℕ) (events : Mask) (user_data : ℕ) (mask : Mask)
      → watching e s (observer_notify o mask (changed_world o events user_data w)) ≡ watching e s w
  changed o events user_data mask =
      let t = changed_world o events user_data w in
      ground (
        arith,
        notify_watching o mask t,
        watchers_cong e t.observers w.observers (w.sources s).epoll_observers (λ k m. ground arith),
      )

  pub present :
      (o : ℕ)
      → occurs o (w.sources s).epoll_observers ≡ true
      → (w.observers o).epollf ≡ e
      → watching e s w ≡ 1
  present o m i =
      omega (arith, at_most_one, some_watching e o w.observers (w.sources s).epoll_observers m i)

  pub Watches-added :
      (events : Mask) (u64 : ℕ) (mask : Mask)
      → watching e s w ≡ 0
      → Watches e s events u64 (observer_notify w.next mask (linked_world e s events u64 false w))
  Watches-added events u64 mask none_yet o m i =
      let t = linked_world e s events u64 false w in
      let l = (w.sources s).epoll_observers in
      ground (
        arith,
        m,
        i,
        none_yet,
        observer_notify_sources w.next mask t,
        observer_notify_store w.next o mask t,
        occurs_append o w.next l,
        some_watching e o w.observers l,
      )

  pub Others-added :
      (events : Mask) (u64 : ℕ) (mask : Mask)
      → Others e s w (observer_notify w.next mask (linked_world e s events u64 false w))
  Others-added events u64 mask o l n =
      let t = linked_world e s events u64 false w in
      ground (arith, l, v.2.0 (w.observers o).f o, observer_notify_store w.next o mask t)

  pub Watches-changed :
      (i : ℕ) (events : Mask) (u64 : ℕ) (mask : Mask)
      → occurs i (w.sources s).epoll_observers ≡ true
      → (w.observers i).epollf ≡ e
      → Watches e s events u64 (observer_notify i mask (changed_world i events u64 w))
  Watches-changed i events u64 mask m f o n g =
      let t = changed_world i events u64 w in
      let l = (w.sources s).epoll_observers in
      ground (
        arith,
        m,
        f,
        n,
        g,
        at_most_one,
        observer_notify_sources i mask t,
        observer_notify_store i o mask t,
        two_watching e i o w.observers l,
      )

  pub Others-changed :
      (i : ℕ) (events : Mask) (u64 : ℕ) (mask : Mask)
      → occurs i (w.sources s).epoll_observers ≡ true
      → (w.observers i).epollf ≡ e
      → Others e s w (observer_notify i mask (changed_world i events u64 w))
  Others-changed i events u64 mask m f o l n =
      let t = changed_world i events u64 w in
      ground (arith, m, f, l, n, v.2.0 s i, observer_notify_store i o mask t)

  pub Others-deleted :
      (i : ℕ)
      → occurs i (w.sources s).epoll_observers ≡ true
      → (w.observers i).epollf ≡ e
      → Others e s w (remove_event i (unlinked_world i s w))
  Others-deleted i m f o l n =
      ground (arith, m, f, l, n, v.2.0 s i, remove_event_store i o (unlinked_world i s w))
