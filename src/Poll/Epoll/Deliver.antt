-- ===== src/Poll/Epoll/Deliver.antt =====
-- DeliverEvents against the first entries of the list of ready observers, and what it keeps.
use junction.Prelude.{
  ℕ, zero, suc, ◌≡◌, ◌+◌, refl, ap, fun_ext, Bool, false, ◌&&◌, if◌then◌else◌, List, [], ◌∷◌, ◌++◌,
  map, take, drop, ◌∙◌, arith,
}
use junction.Poll.{edge_bit}
use junction.Poll.Epoll.{
  EPollObserver, EpollEvent, World, update, occurs, deliver_loop, deliver_events,
}
use junction.Poll.Epoll.Store.{count, occurs-count, watchers_cong, Listed, Inv}

-- What is reported of an observer.
abbrev pub event_of : (ℕ → EPollObserver) → ℕ → EpollEvent
event_of store o = record {
  events = λ k. (store o).triggered_events k && (store o).watched_events k;
  user_data = (store o).user_data;
}

abbrev pub is_edge : (ℕ → EPollObserver) → ℕ → Bool
is_edge store o = (store o).watched_events edge_bit

-- The observers that stay ready after they were reported.
abbrev pub without_edge : (ℕ → EPollObserver) → List ℕ → List ℕ
without_edge store [] = []
without_edge store (o ∷ os) =
    let rest = without_edge store os in if is_edge store o then rest else o ∷ rest

abbrev pub detached : (ℕ → EPollObserver) → List ℕ → ℕ → EPollObserver
detached store os k =
    if occurs k os && is_edge store k then record (store k) { attached = false } else store k

-- The loop's result for the given number of free entries.
abbrev pub delivered :
    ℕ → List ℕ → (ℕ → EPollObserver) → List EpollEvent × List ℕ × List ℕ × (ℕ → EPollObserver)
delivered room os store = (
  map (event_of store) (take room os),
  without_edge store (take room os),
  drop room os,
  detached store (take room os),
)

without_edge_cong :
    (store store' : ℕ → EPollObserver) (os : List ℕ)
    → ((k : ℕ) → is_edge store k ≡ is_edge store' k)
    → without_edge store os ≡ without_edge store' os
without_edge_cong store store' [] h = refl
without_edge_cong store store' (o ∷ os) h = ground (arith, h o, without_edge_cong store store' os h)

module _ (store : ℕ → EPollObserver) (o : ℕ) (os : List ℕ) where
  abbrev next_store : ℕ → EPollObserver
  next_store =
      if is_edge store o then update store o (record (store o) { attached = false }) else store

  next_event : event_of next_store ≡ event_of store
  next_event = fun_ext (λ k. ground arith)

  next_edge : (k : ℕ) → is_edge next_store k ≡ is_edge store k
  next_edge k = ground arith

  next_detached : detached next_store os ≡ detached store (o ∷ os)
  next_detached = fun_ext (λ k. ground arith)

-- A round of the loop, from the result of the others.
abbrev extend :
    (ℕ → EPollObserver)
    → ℕ
    → List EpollEvent × List ℕ × List ℕ × (ℕ → EPollObserver)
    → List EpollEvent × List ℕ × List ℕ × (ℕ → EPollObserver)
extend store o r = (event_of store o ∷ r.0, (if is_edge store o then r.1 else o ∷ r.1), r.2, r.3)

delivered_step :
    (room : ℕ) (o : ℕ) (os : List ℕ) (store : ℕ → EPollObserver)
    → extend store o (delivered room os (next_store store o os))
      ≡ delivered (suc room) (o ∷ os) store
delivered_step room o os store =
    let next = next_store store o (take room os) in
    let es = next_event store o (take room os) in
    let kept = without_edge_cong next store (take room os) (next_edge store o (take room os)) in
    let ds = next_detached store o (take room os) in
    λ i. (
      event_of store o ∷ map (es i) (take room os),
      (if is_edge store o then kept i else o ∷ kept i),
      drop room os,
      ds i,
    )

-- DeliverEvents reports the first entries of the list in order, takes those with edge triggering off
-- it, and leaves the others for the end.
pub deliver_loop_lem :
    (room : ℕ) (os : List ℕ) (store : ℕ → EPollObserver)
    → deliver_loop room os store ≡ delivered room os store
unfolding deliver_loop
deliver_loop_lem zero os store = refl
deliver_loop_lem (suc room) [] store = refl
deliver_loop_lem (suc room) (o ∷ os) store =
    ap (extend store o) (deliver_loop_lem room os (next_store store o os))
    ∙ delivered_step room o os store

-- The world after the entries of a list were reported.
abbrev pub after_delivery : ℕ → ℕ → World → World
after_delivery e room w = record w {
  observers = detached w.observers (take room (w.events e));
  events =
      update w.events e
        (drop room (w.events e) ++ without_edge w.observers (take room (w.events e)));
}

pub deliver_events_lem :
    (e room : ℕ) (w : World)
    → deliver_events e room w
      ≡ (map (event_of w.observers) (take room (w.events e)), after_delivery e room w)
unfolding deliver_events
deliver_events_lem e room w = rw (deliver_loop_lem room (w.events e) w.observers) refl

count-append_list : (k : ℕ) (l r : List ℕ) → count k (l ++ r) ≡ count k l + count k r
count-append_list k [] r = ground arith
count-append_list k (p ∷ l) r = ground (arith, count-append_list k l r)

count-take-drop :
    (k room : ℕ) (l : List ℕ) → count k (take room l) + count k (drop room l) ≡ count k l
count-take-drop k zero l = ground arith
count-take-drop k (suc room) [] = refl
count-take-drop k (suc room) (p ∷ l) = ground (arith, count-take-drop k room l)

count-without_edge :
    (k : ℕ) (store : ℕ → EPollObserver) (l : List ℕ)
    → count k (without_edge store l) ≡ (if is_edge store k then 0 else count k l)
count-without_edge k store [] = ground arith
count-without_edge k store (p ∷ l) = ground (arith, count-without_edge k store l)

pub after_delivery-Listed : (e room : ℕ) (w : World) → Listed w → Listed (after_delivery e room w)
after_delivery-Listed e room w listed a k =
    let reported = take room (w.events e) in
    ground (
      arith,
      listed a k,
      listed e k,
      count-append_list k (drop room (w.events e)) (without_edge w.observers reported),
      count-take-drop k room (w.events e),
      count-without_edge k w.observers reported,
      occurs-count k reported,
    )

after_delivery-Inv : (e room : ℕ) (w : World) → Inv w → Inv (after_delivery e room w)
after_delivery-Inv e room w (listed, exact, linked, solo) =
    let reported = take room (w.events e) in
    (
      after_delivery-Listed e room w listed,
      λ k. ground (arith, exact k),
      (λ u k h. ground (arith, linked.0 u k, h), λ k h. ground (arith, linked.1 k, h)),
      λ u a. ground (
        arith,
        solo u a,
        watchers_cong a (detached w.observers reported) w.observers (w.sources u).epoll_observers
            (λ k m. ground arith),
      ),
    )

pub deliver_events-Inv : (e room : ℕ) (w : World) → Inv w → Inv ((deliver_events e room w).1)
deliver_events-Inv e room w v = rw (deliver_events_lem e room w) (after_delivery-Inv e room w v)
