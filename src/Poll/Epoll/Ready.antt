-- ===== src/Poll/Epoll/Ready.antt =====
-- Every operation of an epoll file and of its sources keeps the lists, the flags and the events of the
-- observers in agreement.
use junction.Prelude.{
  ℕ, ◌≡◌, Bool, true, false, ◌&&◌, ◌||◌, not, ◌==◌, List, [], ◌∷◌, arith, Bool-cases, inl, inr,
}
use junction.Poll.{Mask, exclusive_bit, hits, contains, mask_or}
use junction.Poll.Epoll.{
  World, occurs, observer_notify, notify_loop, notify_one, shot, spent, source_notify, set_mask,
  source_set, source_clear,
}
use junction.Poll.Epoll.Store.{
  watchers_cong, Listed, live, Exact, ExactAt, Linked, Solo, Inv, observer_notify_store,
  observer_notify_sources, observer_notify_next, observer_notify-Listed,
}

observer_notify-Exact :
    (o : ℕ) (mask : Mask) (w : World)
    → ((k : ℕ) → (k == o) ≡ false → ExactAt w k)
    → Exact (observer_notify o mask w)
observer_notify-Exact o mask w x k =
    ground (arith, x k, observer_notify_store o k mask w, observer_notify_sources o mask w)

observer_notify-Linked :
    (o : ℕ) (mask : Mask) (w : World)
    → live w o ≡ true
    → Linked w
    → Linked (observer_notify o mask w)
observer_notify-Linked o mask w l (back, ready) = (
  λ s k h. ground (
    arith,
    back s k,
    observer_notify_store o k mask w,
    observer_notify_sources o mask w,
    observer_notify_next o mask w,
    h,
  ),
  λ k h.
      ground
        (arith, ready k, observer_notify_store o k mask w, observer_notify_sources o mask w, h, l),
)

observer_notify-Solo : (o : ℕ) (mask : Mask) (w : World) → Solo w → Solo (observer_notify o mask w)
observer_notify-Solo o mask w solo s e =
    let t = observer_notify o mask w in
    ground (
      arith,
      solo s e,
      observer_notify_sources o mask w,
      watchers_cong e t.observers w.observers (w.sources s).epoll_observers
          (λ k m. ground (arith, observer_notify_store o k mask w)),
    )

-- The observer that is notified need not be in agreement before.
pub renewed-Inv :
    (o : ℕ) (mask : Mask) (w : World)
    → live w o ≡ true
    → Listed w
    → ((k : ℕ) → (k == o) ≡ false → ExactAt w k)
    → Linked w
    → Solo w
    → Inv (observer_notify o mask w)
renewed-Inv o mask w l listed exact linked solo = (
  observer_notify-Listed o mask w listed,
  observer_notify-Exact o mask w exact,
  observer_notify-Linked o mask w l linked,
  observer_notify-Solo o mask w solo,
)

observer_notify-Inv :
    (o : ℕ) (mask : Mask) (w : World) → live w o ≡ true → Inv w → Inv (observer_notify o mask w)
observer_notify-Inv o mask w l (listed, exact, linked, solo) =
    renewed-Inv o mask w l listed (λ k h. exact k) linked solo

-- Marking a one-shot observer changes nothing that the invariant is about.
shot_epollf : (o k : ℕ) (w : World) → ((shot o w).observers k).epollf ≡ (w.observers k).epollf
shot_epollf o k w = ground arith

shot-Inv : (o : ℕ) (w : World) → Inv w → Inv (shot o w)
shot-Inv o w (listed, exact, linked, solo) = (
  λ e k. ground (arith, listed e k),
  λ k. ground (arith, exact k),
  (λ s k h. ground (arith, linked.0 s k, h), λ k h. ground (arith, linked.1 k, h)),
  λ s e. ground (
    arith,
    solo s e,
    watchers_cong e (shot o w).observers w.observers (w.sources s).epoll_observers
        (λ k m. shot_epollf o k w),
  ),
)

-- What a notification of one observer leaves as it is.
pub notify_one_sources :
    (o : ℕ) (exclusive : Bool) (mask : Mask) (w : World)
    → (notify_one o exclusive mask w).sources ≡ w.sources
unfolding notify_one
notify_one_sources o exclusive mask w = ground (arith, observer_notify_sources o mask (shot o w))

pub notify_one_f :
    (o k : ℕ) (exclusive : Bool) (mask : Mask) (w : World)
    → ((notify_one o exclusive mask w).observers k).f ≡ (w.observers k).f
unfolding notify_one
notify_one_f o k exclusive mask w = ground (arith, observer_notify_store o k mask (shot o w))

pub live-notify_one :
    (o k : ℕ) (exclusive : Bool) (mask : Mask) (w : World)
    → live (notify_one o exclusive mask w) k ≡ live w k
live-notify_one o k exclusive mask w =
    ground (arith, notify_one_sources o exclusive mask w, notify_one_f o k exclusive mask w)

notify_one-Inv :
    (o : ℕ) (exclusive : Bool) (mask : Mask) (w : World)
    → live w o ≡ true
    → Inv w
    → Inv (notify_one o exclusive mask w)
unfolding notify_one
notify_one-Inv o exclusive mask w l v =
    elim (Bool-cases
      (spent (w.observers o) || (w.observers o).watched_events exclusive_bit && exclusive)) [
        | inl e ↦ rw e (shot-Inv o w v)
        | inr e ↦ rw e (observer_notify-Inv o mask (shot o w) (ground (arith, l)) (shot-Inv o w v))
      ]

notify_loop-Inv :
    (os : List ℕ) (exclusive : Bool) (mask : Mask) (w : World)
    → ((k : ℕ) → occurs k os ≡ true → live w k ≡ true)
    → Inv w
    → Inv (notify_loop os exclusive mask w)
unfolding notify_loop
notify_loop-Inv [] exclusive mask w l v = v
notify_loop-Inv (o ∷ os) exclusive mask w l v =
    notify_loop-Inv os
      (exclusive || (w.observers o).watched_events exclusive_bit && not (spent (w.observers o)))
      mask (notify_one o exclusive mask w)
      (λ k h. ground (arith, live-notify_one o k exclusive mask w, l k, h))
      (notify_one-Inv o exclusive mask w (l o (ground arith)) v)

-- Any notification, whether an observer is triggered by it or not: the invariant for a changed mask.
pub set_mask-Inv : (s : ℕ) (mask : Mask) (w : World) → Inv w → Inv (set_mask s mask w)
set_mask-Inv s mask w (listed, exact, linked, solo) = (
  listed,
  λ k. ground (arith, exact k),
  (λ u k h. ground (arith, linked.0 u k, h), λ k h. ground (arith, linked.1 k, h)),
  λ u e. ground (arith, solo u e),
)

source_notify-Inv : (s : ℕ) (w : World) → Inv w → Inv (source_notify s w)
unfolding source_notify
source_notify-Inv s w v =
    notify_loop-Inv (w.sources s).epoll_observers false (w.sources s).event_mask w
      (λ k h. let (e, b) = v.2.0 s k h in ground (arith, e, h)) v

pub source_set-Inv :
    (s : ℕ) (mask : Mask) (force_notify : Bool) (w : World)
    → Inv w
    → Inv (source_set s mask force_notify w)
unfolding source_set
source_set-Inv s mask force_notify w v =
    elim (Bool-cases (contains (w.sources s).event_mask mask && not force_notify)) [
      | inl e ↦ rw e v
      | inr e ↦ rw e (
          source_notify-Inv s (set_mask s (mask_or (w.sources s).event_mask mask) w)
            (set_mask-Inv s (mask_or (w.sources s).event_mask mask) w v))
    ]

pub source_clear-Inv : (s : ℕ) (mask : Mask) (w : World) → Inv w → Inv (source_clear s mask w)
unfolding source_clear
source_clear-Inv s mask w v = elim (Bool-cases (hits (w.sources s).event_mask mask)) [
  | inl e ↦ rw e (
      source_notify-Inv s (set_mask s (λ k. (w.sources s).event_mask k && not (mask k)) w)
        (set_mask-Inv s (λ k. (w.sources s).event_mask k && not (mask k)) w v))
  | inr e ↦ rw e v
]
