-- ===== src/Poll/Epoll/OneShot.antt =====
-- Observers with EPOLLONESHOT: which notifications of their source reach them.
use junction.Prelude.{
  ℕ, ◌≡◌, refl, Bool, true, false, ◌&&◌, ◌||◌, not, ◌==◌, List, [], subst, ◌∷◌, arith, Bool-cases,
  inl, inr,
}
use junction.Poll.{Mask, exclusive_bit, one_shot_bit, hits, contains, mask_or}
use junction.Poll.Epoll.{
  World, occurs, shot, spent, notify_one, notify_loop, source_notify, set_mask, source_set,
}
use junction.Poll.Epoll.Store.{observer_notify_store}

-- A one-shot observer, spent or not, that is not ready and watches none of the events of a mask.
abbrev Waiting : ℕ → Mask → Bool → World → Type 0
Waiting o watched is_spent w =
    ((w.observers o).watched_events ≡ watched)
    × ((w.observers o).attached ≡ false)
    × ((w.observers o).one_shot_triggered ≡ is_spent)

notify_one_self :
    (o : ℕ) (exclusive is_spent : Bool) (mask watched : Mask) (w : World)
    → watched one_shot_bit ≡ true
    → (is_spent || not (hits mask watched)) ≡ true
    → Waiting o watched is_spent w
    → Waiting o watched true (notify_one o exclusive mask w)
unfolding notify_one
notify_one_self o exclusive is_spent mask watched w one miss (e, a, t) = (
  ground (arith, observer_notify_store o o mask (shot o w), e),
  ground (arith, observer_notify_store o o mask (shot o w), e, a, t, one, miss),
  ground (arith, observer_notify_store o o mask (shot o w), e, t, one),
)

notify_one_other :
    (o k : ℕ) (exclusive : Bool) (mask : Mask) (w : World)
    → (k == o) ≡ false
    → (notify_one o exclusive mask w).observers k ≡ w.observers k
unfolding notify_one
notify_one_other o k exclusive mask w h =
    ground (arith, observer_notify_store o k mask (shot o w), h)

spent_one :
    (p o : ℕ) (exclusive : Bool) (mask watched : Mask) (w : World)
    → watched one_shot_bit ≡ true
    → Waiting o watched true w
    → Waiting o watched true (notify_one p exclusive mask w)
spent_one p o exclusive mask watched w one h = elim (Bool-cases (o == p)) [
  | inl e ↦
      let same : o ≡ p = ground (arith, e) in
      subst (λ q. Waiting o watched true (notify_one q exclusive mask w)) same
        (notify_one_self o exclusive true mask watched w one refl h)
  | inr e ↦ rw (notify_one_other p o exclusive mask w e) h
]

spent_loop :
    (os : List ℕ) (o : ℕ) (exclusive : Bool) (mask watched : Mask) (w : World)
    → watched one_shot_bit ≡ true
    → Waiting o watched true w
    → Waiting o watched true (notify_loop os exclusive mask w)
unfolding notify_loop
spent_loop [] o exclusive mask watched w one h = h
spent_loop (p ∷ os) o exclusive mask watched w one h =
    spent_loop os o
      (exclusive || (w.observers p).watched_events exclusive_bit && not (spent (w.observers p)))
      mask watched (notify_one p exclusive mask w) one
      (spent_one p o exclusive mask watched w one h)

missed_loop :
    (os : List ℕ) (o : ℕ) (exclusive : Bool) (mask watched : Mask) (w : World)
    → watched one_shot_bit ≡ true
    → hits mask watched ≡ false
    → occurs o os ≡ true
    → Waiting o watched false w
    → Waiting o watched true (notify_loop os exclusive mask w)
unfolding notify_loop
missed_loop [] o exclusive mask watched w one miss m h = absurd (cc m)
missed_loop (p ∷ os) o exclusive mask watched w one miss m h =
    let flag =
      exclusive || (w.observers p).watched_events exclusive_bit && not (spent (w.observers p)) in
    elim (Bool-cases (o == p)) [
      | inl e ↦
          let same : o ≡ p = ground (arith, e) in
          spent_loop os o flag mask watched (notify_one p exclusive mask w) one (
            subst (λ q. Waiting o watched true (notify_one q exclusive mask w)) same
              (notify_one_self o exclusive false mask watched w one (ground (arith, miss)) h))
      | inr e ↦
          missed_loop os o flag mask watched (notify_one p exclusive mask w) one miss
            (ground (arith, m, e)) (rw (notify_one_other p o exclusive mask w e) h)
    ]

spent_set :
    (s o : ℕ) (mask watched : Mask) (w : World)
    → watched one_shot_bit ≡ true
    → Waiting o watched true w
    → Waiting o watched true (source_set s mask false w)
unfolding source_set source_notify
spent_set s o mask watched w one h =
    elim (Bool-cases (contains (w.sources s).event_mask mask && not false)) [
      | inl e ↦ rw e h
      | inr e ↦ rw e (
          let t = set_mask s (mask_or (w.sources s).event_mask mask) w in
          spent_loop (t.sources s).epoll_observers o false (t.sources s).event_mask watched t one h)
    ]

missed_set :
    (s o : ℕ) (mask watched : Mask) (w : World)
    → watched one_shot_bit ≡ true
    → occurs o (w.sources s).epoll_observers ≡ true
    → contains (w.sources s).event_mask mask ≡ false
    → hits (mask_or (w.sources s).event_mask mask) watched ≡ false
    → Waiting o watched false w
    → Waiting o watched true (source_set s mask false w)
unfolding source_set source_notify
missed_set s o mask watched w one m new miss h =
    let t = set_mask s (mask_or (w.sources s).event_mask mask) w in
    rw new (
      missed_loop (t.sources s).epoll_observers o false (t.sources s).event_mask watched t one
        (ground (arith, miss)) (ground (arith, m)) h)

-- A source sets an event that an armed one-shot observer does not watch, and afterwards any events at
-- all: the observer is not ready, also where it watches the later ones.
pub one_shot_missed :
    (s o : ℕ) (first later : Mask) (w : World)
    → (w.observers o).watched_events one_shot_bit ≡ true
    → (w.observers o).one_shot_triggered ≡ false
    → (w.observers o).attached ≡ false
    → occurs o (w.sources s).epoll_observers ≡ true
    → contains (w.sources s).event_mask first ≡ false
    → hits (mask_or (w.sources s).event_mask first) (w.observers o).watched_events ≡ false
    → ((source_set s later false (source_set s first false w)).observers o).attached ≡ false
one_shot_missed s o first later w one armed idle m new miss =
    let watched = (w.observers o).watched_events in
    let (e, a, t) =
      spent_set s o later watched (source_set s first false w) one
        (missed_set s o first watched w one m new miss (refl, idle, armed)) in
    a
