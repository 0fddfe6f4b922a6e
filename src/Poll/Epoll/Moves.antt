-- ===== src/Poll/Epoll/Moves.antt =====
-- Adding, changing and deleting an observer keeps the invariant of the store.
use junction.Prelude.{
  ℕ, suc, ◌≡◌, ◌≤◌, refl, Bool, true, false, ◌&&◌, ◌||◌, not, ◌==◌, List, [], ◌∷◌, ◌++◌, arith,
  Bool-cases, inl, inr, Option, none, some,
}
use junction.Poll.{Mask, mask_or, always_watched}
use junction.Poll.Epoll.{
  World, update, occurs, erase, observer_notify, remove_event, find, add, modify, delete,
}
use junction.Poll.Epoll.Store.{
  count, count-erase, occurs-count, watchers, watchers_cong, watchers-append, watchers-erase,
  count-watchers, Listed, live, ExactAt, Linked, Solo, Inv, remove_event_store,
  remove_event_sources, remove_event_next, remove_event-Listed,
}
use junction.Poll.Epoll.Ready.{renewed-Inv}

abbrev pub Found : ℕ → List ℕ → World → Option ℕ → Type 0
Found e os w none = watchers e w.observers os ≡ 0
Found e os w (some o) = (occurs o os ≡ true) × ((w.observers o).epollf ≡ e)

find_step :
    (e p : ℕ) (os : List ℕ) (w : World) (r : Option ℕ)
    → ((w.observers p).epollf == e) ≡ false
    → Found e os w r
    → Found e (p ∷ os) w r
find_step e p os w none h f = ground (arith, h, f)
find_step e p os w (some o) h (m, i) = (ground (arith, m), i)

pub find_lem : (e : ℕ) (os : List ℕ) (w : World) → Found e os w (find e os w)
unfolding find
find_lem e [] w = refl
find_lem e (o ∷ os) w = elim (Bool-cases ((w.observers o).epollf == e)) [
  | inl h ↦ rw h (ground arith, ground (arith, h))
  | inr h ↦ rw h (find_step e o os w (find e os w) h (find_lem e os w))
]

-- The store with a new observer on the list of its source, not yet notified.
abbrev pub linked_world : ℕ → ℕ → Mask → ℕ → Bool → World → World
linked_world e s events user_data one_shot_triggered w = record w {
  observers = update w.observers w.next (record {
    attached = false;
    one_shot_triggered = one_shot_triggered;
    epollf = e;
    f = s;
    watched_events = always_watched events;
    triggered_events = λ k. false;
    user_data = user_data;
  });
  sources =
      update w.sources s
        (record (w.sources s) { epoll_observers = (w.sources s).epoll_observers ++ w.next ∷ [] });
  next = suc w.next;
}

pub occurs_append : (k o : ℕ) (l : List ℕ) → occurs k (l ++ o ∷ []) ≡ (o == k || occurs k l)
occurs_append k o [] = ground arith
occurs_append k o (p ∷ l) = ground (arith, occurs_append k o l)

module _ (e s : ℕ) (events : Mask) (user_data : ℕ) (shot : Bool) (w : World) (v : Inv w)
    (absent : watchers e w.observers (w.sources s).epoll_observers ≡ 0) where
  abbrev grown : World
  grown = linked_world e s events user_data shot w

  grown_attached : (w.observers w.next).attached ≡ false
  grown_attached = ground (arith, v.2.1 w.next, v.2.0 (w.observers w.next).f w.next)

  grown-Listed : Listed grown
  grown-Listed a k = ground (arith, v.0 a k, grown_attached)

  grown-Linked : Linked grown
  grown-Linked = (
    λ u k h. ground (arith, v.2.0 u k, occurs_append k w.next (w.sources s).epoll_observers, h),
    λ k h. ground (arith, v.2.1 k, occurs_append k w.next (w.sources s).epoll_observers, h),
  )

  grown-live : live grown w.next ≡ true
  grown-live = ground (arith, occurs_append w.next w.next (w.sources s).epoll_observers)

  grown-Exact : (k : ℕ) → (k == w.next) ≡ false → ExactAt grown k
  grown-Exact k h = ground (arith, v.1 k, occurs_append k w.next (w.sources s).epoll_observers, h)

  old_watchers :
      (u a : ℕ)
      → watchers a grown.observers (w.sources u).epoll_observers
        ≡ watchers a w.observers (w.sources u).epoll_observers
  old_watchers u a =
      watchers_cong a grown.observers w.observers (w.sources u).epoll_observers
        (λ k m. ground (arith, v.2.0 u k, m))

  grown-Solo : Solo grown
  grown-Solo u a = ground (
    arith,
    v.3 u a,
    absent,
    old_watchers u a,
    watchers-append a w.next grown.observers (w.sources s).epoll_observers,
  )

  added-Inv : (mask : Mask) → Inv (observer_notify w.next mask grown)
  added-Inv mask =
      renewed-Inv w.next mask grown grown-live grown-Listed grown-Exact grown-Linked grown-Solo

abbrev Kept : Bool × World → Type 0
Kept r = Inv (r.1)

add_case :
    (e s : ℕ) (events : Mask) (user_data : ℕ) (shot : Bool) (mask : Mask) (w : World) (r : Option ℕ)
    → Inv w
    → Found e (w.sources s).epoll_observers w r
    → Kept (elim r [
      | some o ↦ (false, w)
      | none ↦ (true, observer_notify w.next mask (linked_world e s events user_data shot w))
    ])
add_case e s events user_data shot mask w none v f = added-Inv e s events user_data shot w v f mask
add_case e s events user_data shot mask w (some o) v f = v

pub add-Inv :
    (e s : ℕ) (events : Mask) (user_data : ℕ) (shot : Bool) (triggered : Mask) (w : World)
    → Inv w
    → Inv ((add e s events user_data shot triggered w).1)
unfolding add
add-Inv e s events user_data shot triggered w v =
    add_case e s events user_data shot (mask_or (w.sources s).event_mask triggered) w
      (find e (w.sources s).epoll_observers w) v (find_lem e (w.sources s).epoll_observers w)

-- The store with the observer changed, not yet notified.
abbrev pub changed_world : ℕ → Mask → ℕ → World → World
changed_world o events user_data w = record w {
  observers = update w.observers o (record (w.observers o) {
    watched_events = always_watched events;
    user_data = user_data;
    one_shot_triggered = false;
  });
}

changed-Inv :
    (o : ℕ) (events : Mask) (user_data : ℕ) (mask : Mask) (w : World)
    → Inv w
    → live w o ≡ true
    → Inv (observer_notify o mask (changed_world o events user_data w))
changed-Inv o events user_data mask w v l =
    let t = changed_world o events user_data w in
    renewed-Inv o mask t (ground (arith, l)) (λ a k. ground (arith, v.0 a k))
      (λ k h. ground (arith, v.1 k, h))
      (λ u k h. ground (arith, v.2.0 u k, h), λ k h. ground (arith, v.2.1 k, h))
      (λ u a. ground (
        arith,
        v.3 u a,
        watchers_cong a t.observers w.observers (w.sources u).epoll_observers (λ k m. ground arith),
      ))

modify_case :
    (e s : ℕ) (events : Mask) (user_data : ℕ) (w : World) (r : Option ℕ)
    → Inv w
    → Found e (w.sources s).epoll_observers w r
    → Kept (elim r [
      | none ↦ (false, w)
      | some o ↦ (
        true,
        observer_notify o (w.observers o).triggered_events (changed_world o events user_data w),
      )
    ])
modify_case e s events user_data w none v f = v
modify_case e s events user_data w (some o) v (m, i) =
    changed-Inv o events user_data (w.observers o).triggered_events w v
      (let (b, n) = v.2.0 s o m in ground (arith, b, m))

pub modify-Inv :
    (e s : ℕ) (events : Mask) (user_data : ℕ) (w : World)
    → Inv w
    → Inv ((modify e s events user_data w).1)
unfolding modify
modify-Inv e s events user_data w v =
    modify_case e s events user_data w (find e (w.sources s).epoll_observers w) v
      (find_lem e (w.sources s).epoll_observers w)

-- The store with the observer off the list of its source, not yet destroyed.
abbrev pub unlinked_world : ℕ → ℕ → World → World
unlinked_world o s w = record w {
  sources =
      update w.sources s
        (record (w.sources s) { epoll_observers = erase o (w.sources s).epoll_observers });
}

pub occurs-erase :
    (k o : ℕ) (l : List ℕ) → count o l ≤ 1 → occurs k (erase o l) ≡ (not (o == k) && occurs k l)
occurs-erase k o l u =
    ground (arith, u, occurs-count k (erase o l), occurs-count k l, count-erase k o l)

deleted-Inv :
    (o s : ℕ) (w : World)
    → Inv w
    → occurs o (w.sources s).epoll_observers ≡ true
    → Inv (remove_event o (unlinked_world o s w))
deleted-Inv o s w (listed, exact, linked, solo) m =
    let t = unlinked_world o s w in
    let l = (w.sources s).epoll_observers in
    let once : count o l ≤ 1 =
      omega (arith, count-watchers o w.observers l, solo s (w.observers o).epollf) in
    (
      remove_event-Listed o t (λ a k. listed a k),
      λ k. ground (
        arith,
        exact k,
        linked.0 s o,
        m,
        remove_event_store o k t,
        remove_event_sources o t,
        occurs-erase k o l once,
      ),
      (
        λ u k h. ground (
          arith,
          linked.0 u k,
          h,
          remove_event_store o k t,
          remove_event_sources o t,
          remove_event_next o t,
          occurs-erase k o l once,
        ),
        λ k h. ground (
          arith,
          linked.1 k,
          h,
          remove_event_store o k t,
          remove_event_sources o t,
          occurs-erase k o l once,
        ),
      ),
      λ u a. ground (
        arith,
        solo u a,
        remove_event_sources o t,
        watchers-erase a o w.observers l,
        watchers_cong a (remove_event o t).observers w.observers (t.sources u).epoll_observers
            (λ k n. ground (arith, remove_event_store o k t)),
      ),
    )

delete_case :
    (s : ℕ) (e : ℕ) (w : World) (r : Option ℕ)
    → Inv w
    → Found e (w.sources s).epoll_observers w r
    → Kept (elim r [ none ↦ (false, w) | some o ↦ (true, remove_event o (unlinked_world o s w)) ])
delete_case s e w none v f = v
delete_case s e w (some o) v (m, i) = deleted-Inv o s w v m

pub delete-Inv : (e s : ℕ) (w : World) → Inv w → Inv ((delete e s w).1)
unfolding delete
delete-Inv e s w v =
    delete_case s e w (find e (w.sources s).epoll_observers w) v
      (find_lem e (w.sources s).epoll_observers w)
