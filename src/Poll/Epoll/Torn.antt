-- ===== src/Poll/Epoll/Torn.antt =====
-- fs/poll.cc: DeliverEvents between the two halves of EPollObserver::Notify, of which the first holds no
-- lock that DeliverEvents takes.
use junction.Prelude.{
  ℕ, zero, suc, ◌≡◌, ◌<◌, refl, Bool, true, false, ◌&&◌, ◌||◌, ◌==◌, ap, subst, ◌∙◌, List, [], ◌∷◌,
  map, take, arith, Bool-cases, inl, inr,
}
use junction.Poll.{Mask, any_below, hits}
use junction.Poll.Epoll.{
  EPollObserver, EpollEvent, World, update, occurs, add_event, remove_event, set_triggered, settle,
  deliver_events,
}
use junction.Poll.Epoll.Store.{
  count-append, count-erase, occurs-count, Listed, Inv, remove_event-Listed, remove_event_store,
  remove_event_next,
}
use junction.Poll.Epoll.Moves.{linked_world, changed_world, unlinked_world}
use junction.Poll.Epoll.Steps.{Reach, Reach-Inv}
use junction.Poll.Epoll.Deliver.{
  event_of, after_delivery, after_delivery-Listed, deliver_events_lem,
}

abbrev pub wanted : ℕ → World → Bool
wanted o w = hits (w.observers o).triggered_events (w.observers o).watched_events

-- The moments at which DeliverEvents can run: after whole operations, or in the middle of any others, which
-- begin and end in any order. `half` marks the observers that have been written, and whose place on the list
-- of their epoll file has still to be settled.
pub data Moment (masks : ℕ → Mask) : (ℕ → Bool) → World → Type 0 where
  whole : {half : ℕ → Bool} {w : World} → Reach masks w → half ≡ (λ o. false) → Moment masks half w
  -- Notify, Modify and Add, up to the second half of the notification.
  begins :
      {before half : ℕ → Bool} {v w : World} (o : ℕ) (mask : Mask)
      → Moment masks before v
      → half ≡ update before o true
      → w ≡ set_triggered o mask v
      → Moment masks half w
  changes :
      {before half : ℕ → Bool} {v w : World} (o : ℕ) (events : Mask) (user_data : ℕ)
      → Moment masks before v
      → half ≡ update before o true
      → w ≡ changed_world o events user_data v
      → Moment masks half w
  links :
      {before half : ℕ → Bool} {v w : World} (e s : ℕ) (events : Mask) (user_data : ℕ)
      → Moment masks before v
      → half ≡ update before v.next true
      → w ≡ linked_world e s events user_data false v
      → Moment masks half w
  ends :
      {before half : ℕ → Bool} {v w : World} (o : ℕ)
      → Moment masks before v
      → o < v.next
      → half ≡ update before o false
      → w ≡ settle o (wanted o v) v
      → Moment masks half w
  deletes :
      {half : ℕ → Bool} {v w : World} (o s : ℕ)
      → Moment masks half v
      → w ≡ remove_event o (unlinked_world o s v)
      → Moment masks half w
  delivers :
      {half : ℕ → Bool} {v w : World} (e room : ℕ)
      → Moment masks half v
      → w ≡ (deliver_events e room v).1
      → Moment masks half w

-- The list and the flags agree, only allocated observers are ready, and one that is ready, and not half
-- way, has an event.
abbrev pub ReadyBut : (ℕ → Bool) → World → Type 0
ReadyBut half w =
    Listed w
    × ((o : ℕ) → (w.observers o).attached ≡ true → o < w.next)
    × ((o : ℕ) → half o ≡ false → (w.observers o).attached ≡ true → wanted o w ≡ true)

begins-ReadyBut :
    (before : ℕ → Bool) (o : ℕ) (mask : Mask) (v : World)
    → ReadyBut before v
    → ReadyBut (update before o true) (set_triggered o mask v)
begins-ReadyBut before o mask v (listed, known, ready) = (
  λ e k. ground (arith, listed e k),
  λ k a. ground (arith, known k, a),
  λ k h a. ground (arith, ready k, h, a),
)

changes-ReadyBut :
    (before : ℕ → Bool) (o : ℕ) (events : Mask) (user_data : ℕ) (v : World)
    → ReadyBut before v
    → ReadyBut (update before o true) (changed_world o events user_data v)
changes-ReadyBut before o events user_data v (listed, known, ready) = (
  λ e k. ground (arith, listed e k),
  λ k a. ground (arith, known k, a),
  λ k h a. ground (arith, ready k, h, a),
)

links-ReadyBut :
    (before : ℕ → Bool) (e s : ℕ) (events : Mask) (user_data : ℕ) (v : World)
    → ReadyBut before v
    → ReadyBut (update before v.next true) (linked_world e s events user_data false v)
links-ReadyBut before e s events user_data v (listed, known, ready) = (
  λ d k. ground (arith, listed d k, known k),
  λ k a. ground (arith, known k, a),
  λ k h a. ground (arith, ready k, h, a),
)

settle-ReadyBut :
    (before : ℕ → Bool) (o : ℕ) (b : Bool) (v : World)
    → wanted o v ≡ b
    → o < v.next
    → ReadyBut before v
    → ReadyBut (update before o false) (settle o b v)
unfolding add_event remove_event
settle-ReadyBut before o b v e n (listed, known, ready) = (
  λ d k. ground (
    arith,
    listed d k,
    listed (v.observers o).epollf k,
    listed d o,
    count-append k o (v.events (v.observers o).epollf),
    count-erase k o (v.events (v.observers o).epollf),
  ),
  λ k a. ground (arith, known k, n, a),
  λ k h a. ground (arith, ready k, h, a, e),
)

deletes-ReadyBut :
    (half : ℕ → Bool) (o s : ℕ) (v : World)
    → ReadyBut half v
    → ReadyBut half (remove_event o (unlinked_world o s v))
deletes-ReadyBut half o s v (listed, known, ready) =
    let u = unlinked_world o s v in
    (
      remove_event-Listed o u (λ d k. listed d k),
      λ k a. ground (arith, known k, a, remove_event_store o k u, remove_event_next o u),
      λ k h a. ground (arith, ready k, h, a, remove_event_store o k u),
    )

delivers-ReadyBut :
    (half : ℕ → Bool) (e room : ℕ) (v : World)
    → ReadyBut half v
    → ReadyBut half (after_delivery e room v)
delivers-ReadyBut half e room v (listed, known, ready) = (
  after_delivery-Listed e room v listed,
  λ k a. ground (arith, known k, a),
  λ k h a. ground (arith, ready k, h, a),
)

whole-ReadyBut : (w : World) → Inv w → ReadyBut (λ o. false) w
whole-ReadyBut w (listed, exact, linked, solo) =
    (listed, λ o a. ground (arith, linked.0 (w.observers o).f o, linked.1 o a), λ o n. (exact o).0)

pub Moment-ReadyBut :
    (masks : ℕ → Mask) (half : ℕ → Bool) (w : World) → Moment masks half w → ReadyBut half w
Moment-ReadyBut masks half w (whole r h) = rw h (whole-ReadyBut w (Reach-Inv masks w r))
Moment-ReadyBut masks half w (begins {before = x} {v = v} o mask m h e) =
    rw (h, e) (begins-ReadyBut x o mask v (Moment-ReadyBut masks x v m))
Moment-ReadyBut masks half w (changes {before = x} {v = v} o events user_data m h e) =
    rw (h, e) (changes-ReadyBut x o events user_data v (Moment-ReadyBut masks x v m))
Moment-ReadyBut masks half w (links {before = x} {v = v} d s events user_data m h e) =
    rw (h, e) (links-ReadyBut x d s events user_data v (Moment-ReadyBut masks x v m))
Moment-ReadyBut masks half w (ends {before = x} {v = v} o m n h e) =
    rw (h, e) (settle-ReadyBut x o (wanted o v) v refl n (Moment-ReadyBut masks x v m))
Moment-ReadyBut masks half w (deletes {v = v} o s m e) =
    rw e (deletes-ReadyBut half o s v (Moment-ReadyBut masks half v m))
Moment-ReadyBut masks half w (delivers {v = v} d room m e) =
    rw (e, deliver_events_lem d room v)
      (delivers-ReadyBut half d room v (Moment-ReadyBut masks half v m))

-- Every entry of a report of the observers on a list has an event, or is of an observer that is half
-- notified.
abbrev pub all_real : (ℕ → Bool) → List ℕ → List EpollEvent → Bool
all_real half os [] = true
all_real half [] (ev ∷ out) = false
all_real half (o ∷ os) (ev ∷ out) = (half o || any_below 32 ev.events) && all_real half os out

reports_real :
    (half : ℕ → Bool) (room : ℕ) (os : List ℕ) (store : ℕ → EPollObserver)
    → ((o : ℕ)
        → occurs o os ≡ true
        → half o ≡ false
        → hits (store o).triggered_events (store o).watched_events ≡ true)
    → all_real half os (map (event_of store) (take room os)) ≡ true
unfolding hits
reports_real half zero os store h = refl
reports_real half (suc room) [] store h = refl
reports_real half (suc room) (o ∷ os) store h =
    let here = h o (ground arith) in
    ground (arith, here, reports_real half room os store (λ k m. h k (ground (arith, m))))

pub deliver_events_real :
    (half : ℕ → Bool) (e room : ℕ) (w : World)
    → ReadyBut half w
    → all_real half (w.events e) ((deliver_events e room w).0) ≡ true
deliver_events_real half e room w (listed, known, ready) = rw (deliver_events_lem e room w) (
    reports_real half room (w.events e) w.observers
      (λ o m h. ready o h (ground (arith, listed e o, m, occurs-count o (w.events e)))))

and_false : (b : Bool) → (b && false) ≡ false
and_false true = refl
and_false false = refl

some_empty :
    (room : ℕ) (os : List ℕ) (o : ℕ) (store : ℕ → EPollObserver)
    → occurs o (take room os) ≡ true
    → hits (store o).triggered_events (store o).watched_events ≡ false
    → all_real (λ k. false) os (map (event_of store) (take room os)) ≡ false
unfolding hits
some_empty zero os o store m h = absurd (cc m)
some_empty (suc room) [] o store m h = absurd (cc m)
some_empty (suc room) (p ∷ os) o store m h =
    let rest = all_real (λ k. false) os (map (event_of store) (take room os)) in
    let reported : ℕ → Bool =
      λ q. any_below 32 (λ k. (store q).triggered_events k && (store q).watched_events k) in
    elim (Bool-cases (p == o)) [
      | inl e ↦
          let same : o ≡ p = ground (arith, e) in
          let empty : reported p ≡ false = subst (λ q. reported q ≡ false) same h in
          ap (λ (b : Bool). b && rest) empty
      | inr e ↦
          let later : rest ≡ false = some_empty room os o store (ground (arith, e, m)) h in
          ap (λ (b : Bool). reported p && b) later ∙ and_false (reported p)
    ]

-- When a notification clears the events of a ready observer, and DeliverEvents runs between its halves and
-- reaches the observer, the report has an entry without any event.
torn_report :
    (o e room : ℕ) (mask : Mask) (w : World)
    → occurs o (take room (w.events e)) ≡ true
    → hits mask (w.observers o).watched_events ≡ false
    → all_real (λ k. false) (w.events e) ((deliver_events e room (set_triggered o mask w)).0)
      ≡ false
torn_report o e room mask w m h =
    rw (deliver_events_lem e room (set_triggered o mask w))
      (some_empty room (w.events e) o (set_triggered o mask w).observers m (ground (arith, h)))
