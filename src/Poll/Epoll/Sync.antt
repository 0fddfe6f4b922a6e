-- ===== src/Poll/Epoll/Sync.antt =====
-- The events that an observer knows against the mask of its source, for the observers whose notifications
-- are never skipped.
use junction.Prelude.{
  ℕ, ◌≡◌, ◌≤◌, refl, ap, sym, Bool, true, false, ◌&&◌, ◌||◌, not, ◌==◌, if◌then◌else◌, List, [],
  ◌∷◌, arith, Bool-cases, inl, inr, Option, none, some,
}
use junction.Poll.{Mask, exclusive_bit, one_shot_bit, hits, contains, mask_or}
use junction.Poll.Epoll.{
  EPollObserver, World, occurs, shot, spent, observer_notify, remove_event, notify_one, notify_loop,
  source_notify, set_mask, source_set, source_clear, find, add, modify, delete, deliver_events,
}
use junction.Poll.Epoll.Store.{
  count, count-watchers, live, Inv, observer_notify_store, observer_notify_sources,
  remove_event_store, remove_event_sources,
}
use junction.Poll.Epoll.Ready.{set_mask-Inv, notify_one_sources, notify_one_f, live-notify_one}
use junction.Poll.Epoll.Moves.{
  Found, find_lem, linked_world, changed_world, unlinked_world, occurs_append, occurs-erase,
}
use junction.Poll.Epoll.Deliver.{after_delivery, deliver_events_lem}

-- Neither EPOLLONESHOT nor EPOLLEXCLUSIVE.
abbrev pub plain : EPollObserver → Bool
plain oe = not (oe.watched_events one_shot_bit) && not (oe.watched_events exclusive_bit)

-- The observer, when it is plain and on the list of its source has seen the mask that the source has, unless it is
-- still to be notified.
abbrev pub SyncedBut : ℕ → List ℕ → World → Type 0
SyncedBut o os w =
    (k : ℕ)
    → live w o ≡ true
    → plain (w.observers o) ≡ true
    → occurs o os ≡ false
    → (w.observers o).triggered_events k ≡ (w.sources (w.observers o).f).event_mask k

abbrev pub Synced : ℕ → World → Type 0
Synced o w =
    (k : ℕ)
    → live w o ≡ true
    → plain (w.observers o) ≡ true
    → (w.observers o).triggered_events k ≡ (w.sources (w.observers o).f).event_mask k

notify_one_triggered :
    (o i k : ℕ) (exclusive : Bool) (mask : Mask) (w : World)
    → plain (w.observers i) ≡ true
    → ((notify_one o exclusive mask w).observers i).triggered_events k
      ≡ (if i == o then mask k else (w.observers i).triggered_events k)
unfolding notify_one
notify_one_triggered o i k exclusive mask w p =
    ground (arith, observer_notify_store o i mask (shot o w), p)

plain-notify_one :
    (o i : ℕ) (exclusive : Bool) (mask : Mask) (w : World)
    → plain ((notify_one o exclusive mask w).observers i) ≡ plain (w.observers i)
unfolding notify_one
plain-notify_one o i exclusive mask w = ground (arith, observer_notify_store o i mask (shot o w))

notify_loop-Synced :
    (a : ℕ) (os : List ℕ) (exclusive : Bool) (mask : Mask) (w : World)
    → ((i k : ℕ) → occurs i os ≡ true → (w.sources (w.observers i).f).event_mask k ≡ mask k)
    → SyncedBut a os w
    → Synced a (notify_loop os exclusive mask w)
unfolding notify_loop
notify_loop-Synced a [] exclusive mask w m h = λ k l p. h k l p refl
notify_loop-Synced a (o ∷ os) exclusive mask w m h =
    let t = notify_one o exclusive mask w in
    notify_loop-Synced a os
      (exclusive || (w.observers o).watched_events exclusive_bit && not (spent (w.observers o)))
      mask t
      (λ i k q.
        ground (
          arith,
          m i k,
          q,
          notify_one_sources o exclusive mask w,
          notify_one_f o i exclusive mask w,
        ))
      (λ k l p q. ground (
        arith,
        m o k,
        h k,
        l,
        p,
        q,
        plain-notify_one o a exclusive mask w,
        notify_one_triggered o a k exclusive mask w,
        live-notify_one o a exclusive mask w,
        notify_one_sources o exclusive mask w,
        notify_one_f o a exclusive mask w,
      ))

source_notify-Synced :
    (o s : ℕ) (w : World)
    → Inv w
    → ((k : ℕ)
        → live w o ≡ true
        → plain (w.observers o) ≡ true
        → ((w.observers o).f == s) ≡ false
        → (w.observers o).triggered_events k ≡ (w.sources (w.observers o).f).event_mask k)
    → Synced o (source_notify s w)
unfolding source_notify
source_notify-Synced o s w v h =
    notify_loop-Synced o (w.sources s).epoll_observers false (w.sources s).event_mask w
      (λ i k q. let (b, n) = v.2.0 s i q in ground (arith, b))
      (λ k l p q. ground (arith, h k, l, p, q))

renewed-Synced :
    (o s : ℕ) (mask : Mask) (w : World)
    → Inv w
    → Synced o w
    → Synced o (source_notify s (set_mask s mask w))
renewed-Synced o s mask w v h =
    source_notify-Synced o s (set_mask s mask w) (set_mask-Inv s mask w v)
      (λ k l p q. ground (arith, h k, l, p, q))

pub source_set-Synced :
    (o s : ℕ) (mask : Mask) (force_notify : Bool) (w : World)
    → Inv w
    → Synced o w
    → Synced o (source_set s mask force_notify w)
unfolding source_set
source_set-Synced o s mask force_notify w v h =
    elim (Bool-cases (contains (w.sources s).event_mask mask && not force_notify)) [
      | inl e ↦ rw e h
      | inr e ↦ rw e (renewed-Synced o s (mask_or (w.sources s).event_mask mask) w v h)
    ]

pub source_clear-Synced :
    (o s : ℕ) (mask : Mask) (w : World) → Inv w → Synced o w → Synced o (source_clear s mask w)
unfolding source_clear
source_clear-Synced o s mask w v h = elim (Bool-cases (hits (w.sources s).event_mask mask)) [
  | inl e ↦ rw e (renewed-Synced o s (λ k. (w.sources s).event_mask k && not (mask k)) w v h)
  | inr e ↦ rw e h
]

abbrev KeptSync : ℕ → Bool × World → Type 0
KeptSync o r = Synced o (r.1)

add_case :
    (o e s : ℕ) (events : Mask) (user_data : ℕ) (shot : Bool) (w : World) (r : Option ℕ)
    → Inv w
    → Synced o w
    → KeptSync o (elim r [
      | some i ↦ (false, w)
      | none ↦ (
        true,
        observer_notify w.next
            (mask_or (w.sources s).event_mask (λ k. false))
            (linked_world e s events user_data shot w),
      )
    ])
add_case o e s events user_data shot w none v h = λ k l p.
    let mask : Mask = mask_or (w.sources s).event_mask (λ j. false) in
    let t = linked_world e s events user_data shot w in
    ground (
      arith,
      h k,
      v.2.0 (w.observers o).f o,
      l,
      p,
      observer_notify_store w.next o mask t,
      observer_notify_sources w.next mask t,
      occurs_append o w.next (w.sources s).epoll_observers,
    )
add_case o e s events user_data shot w (some i) v h = h

pub add-Synced :
    (o e s : ℕ) (events : Mask) (user_data : ℕ) (shot : Bool) (w : World)
    → Inv w
    → Synced o w
    → Synced o ((add e s events user_data shot (λ k. false) w).1)
unfolding add
add-Synced o e s events user_data shot w v h =
    add_case o e s events user_data shot w (find e (w.sources s).epoll_observers w) v h

modify_case :
    (o e s : ℕ) (events : Mask) (user_data : ℕ) (w : World) (r : Option ℕ)
    → Inv w
    → Synced o w
    → Found e (w.sources s).epoll_observers w r
    → (r ≡ some o → plain (w.observers o) ≡ true)
    → KeptSync o (elim r [
      | none ↦ (false, w)
      | some i ↦ (
        true,
        observer_notify i (w.observers i).triggered_events (changed_world i events user_data w),
      )
    ])
modify_case o e s events user_data w none v h f c = h
modify_case o e s events user_data w (some i) v h (m, j) c = λ k l p.
    let t = changed_world i events user_data w in
    let mask = (w.observers i).triggered_events in
    ground (
      arith,
      h k,
      v.2.0 s i,
      m,
      (λ (q : o ≡ i). c (ap some (sym q))),
      l,
      p,
      observer_notify_store i o mask t,
      observer_notify_sources i mask t,
    )

-- A change of another observer, or of this one while it was plain, whatever it is changed to.
pub modify-Synced :
    (o e s : ℕ) (events : Mask) (user_data : ℕ) (w : World)
    → Inv w
    → Synced o w
    → (find e (w.sources s).epoll_observers w ≡ some o → plain (w.observers o) ≡ true)
    → Synced o ((modify e s events user_data w).1)
unfolding modify
modify-Synced o e s events user_data w v h c =
    modify_case o e s events user_data w (find e (w.sources s).epoll_observers w) v h
      (find_lem e (w.sources s).epoll_observers w) c

delete_case :
    (o e s : ℕ) (w : World) (r : Option ℕ)
    → Inv w
    → Synced o w
    → Found e (w.sources s).epoll_observers w r
    → KeptSync o
        (elim r [ none ↦ (false, w) | some i ↦ (true, remove_event i (unlinked_world i s w)) ])
delete_case o e s w none v h f = h
delete_case o e s w (some i) v h (m, j) = λ k l p.
    let t = unlinked_world i s w in
    let once : count i (w.sources s).epoll_observers ≤ 1 = omega (
      arith,
      count-watchers i w.observers (w.sources s).epoll_observers,
      v.3 s (w.observers i).epollf,
    ) in
    ground (
      arith,
      h k,
      l,
      p,
      remove_event_store i o t,
      remove_event_sources i t,
      occurs-erase o i (w.sources s).epoll_observers once,
    )

pub delete-Synced : (o e s : ℕ) (w : World) → Inv w → Synced o w → Synced o ((delete e s w).1)
unfolding delete
delete-Synced o e s w v h =
    delete_case o e s w (find e (w.sources s).epoll_observers w) v h
      (find_lem e (w.sources s).epoll_observers w)

after_delivery-Synced : (o e room : ℕ) (w : World) → Synced o w → Synced o (after_delivery e room w)
after_delivery-Synced o e room w h k l p = ground (arith, h k, l, p)

pub deliver_events-Synced :
    (o e room : ℕ) (w : World) → Synced o w → Synced o ((deliver_events e room w).1)
deliver_events-Synced o e room w h =
    rw (deliver_events_lem e room w) (after_delivery-Synced o e room w h)
