-- ===== src/Poll/Epoll/Calls/Fair.antt =====
-- No ready observer is passed over for ever.
use junction.Prelude.{
  ℕ, zero, suc, ◌≡◌, ◌<◌, ◌≤◌, ◌+◌, ◌-◌, ◌*◌, refl, ap, ◌∙◌, List, [], ◌∷◌, ◌++◌, map, length, take,
  drop, get_elem?, some, arith, Bool-cases, inl, inr, ltb,
}
use junction.Poll.Epoll.{EPollObserver, EpollEvent, World, deliver_events}
use junction.Poll.Epoll.Deliver.{
  event_of, detached, without_edge, after_delivery, deliver_events_lem,
}

-- The entries of a number of calls that find a ready observer, one after the other.
unfoldable pub waits : ℕ → ℕ → ℕ → World → List EpollEvent
waits e room zero w = []
waits e room (suc calls) w =
    (deliver_events e room w).0 ++ waits e room calls (deliver_events e room w).1

module _ {ℓ} {A : Type ℓ} where
  get_elem?-append :
      (l r : List A) (p : ℕ) (a : A) → get_elem? l p ≡ some a → get_elem? (l ++ r) p ≡ some a
  get_elem?-append [] r p a h = absurd (cc h)
  get_elem?-append (x ∷ l) r zero a h = h
  get_elem?-append (x ∷ l) r (suc p) a h = get_elem?-append l r p a h

  get_elem?-append_right :
      (l r : List A) (p : ℕ) → get_elem? (l ++ r) (length l + p) ≡ get_elem? r p
  get_elem?-append_right [] r p = let e : 0 + p ≡ p = omega arith in ap (get_elem? r) e
  get_elem?-append_right (x ∷ l) r p =
      let e : suc (length l) + p ≡ suc (length l + p) = omega arith in
      ap (get_elem? ((x ∷ l) ++ r)) e ∙ get_elem?-append_right l r p

  get_elem?-drop :
      (l : List A) (n p : ℕ) (a : A)
      → n ≤ p
      → get_elem? l p ≡ some a
      → get_elem? (drop n l) (p - n) ≡ some a
  get_elem?-drop l zero p a h g = let e : p - 0 ≡ p = omega arith in ap (get_elem? l) e ∙ g
  get_elem?-drop [] (suc n) p a h g = absurd (cc g)
  get_elem?-drop (x ∷ l) (suc n) zero a h g = absurd (omega arith)
  get_elem?-drop (x ∷ l) (suc n) (suc p) a h g =
      let e : suc p - suc n ≡ p - n = omega arith in
      ap (get_elem? (drop n l)) e ∙ get_elem?-drop l n p a (omega arith) g

get_elem?-map-take :
    (f : ℕ → EpollEvent) (l : List ℕ) (n p o : ℕ)
    → p < n
    → get_elem? l p ≡ some o
    → get_elem? (map f (take n l)) p ≡ some (f o)
get_elem?-map-take f l zero p o h g = absurd (omega arith)
get_elem?-map-take f [] (suc n) p o h g = absurd (cc g)
get_elem?-map-take f (x ∷ l) (suc n) zero o h g = cc g
get_elem?-map-take f (x ∷ l) (suc n) (suc p) o h g = get_elem?-map-take f l n p o (omega arith) g

-- Where an entry stands among others.
abbrev pub IsAmong : EpollEvent → List EpollEvent → Type 0
IsAmong ev out = (i : ℕ) × (get_elem? out i ≡ some ev)

detached_event :
    (store : ℕ → EPollObserver) (os : List ℕ) (o : ℕ)
    → event_of (detached store os) o ≡ event_of store o
detached_event store os o = ground arith

waits_step :
    (e room calls : ℕ) (w : World)
    → waits e room (suc calls) w
      ≡ map (event_of w.observers) (take room (w.events e))
        ++ waits e room calls (after_delivery e room w)
unfolding waits
waits_step e room calls w = rw (deliver_events_lem e room w) refl

below : (room p calls : ℕ) → p < suc calls * room → room ≤ p → p - room < calls * room
below room p calls h l =
    let e : suc calls * room ≡ room + calls * room = omega arith in omega (arith, e)

waits_later :
    (e room calls p o : ℕ) (w : World)
    → (IsAmong
        (event_of (after_delivery e room w).observers o)
        (waits e room calls (after_delivery e room w)))
    → IsAmong (event_of w.observers o) (
        map (event_of w.observers) (take room (w.events e))
        ++ waits e room calls (after_delivery e room w))
waits_later e room calls p o w (i, q) = (
  length (map (event_of w.observers) (take room (w.events e))) + i,
  get_elem?-append_right (map (event_of w.observers) (take room (w.events e)))
        (waits e room calls (after_delivery e room w)) i
      ∙ q
      ∙ ap some (detached_event w.observers (take room (w.events e)) o),
)

moved_up :
    (e room p o : ℕ) (w : World)
    → room ≤ p
    → get_elem? (w.events e) p ≡ some o
    → get_elem? ((after_delivery e room w).events e) (p - room) ≡ some o
moved_up e room p o w h g = ground (
  arith,
  get_elem?-append (drop room (w.events e)) (without_edge w.observers (take room (w.events e)))
      (p - room) o (get_elem?-drop (w.events e) room p o h g),
)

-- An observer at the position p of the list of ready observers is reported, with its events, within k
-- calls of epoll_wait that ask for n entries each, where p < k * n, if nothing else happens meanwhile.
pub waits-IsAmong :
    (e room calls p o : ℕ) (w : World)
    → get_elem? (w.events e) p ≡ some o
    → p < calls * room
    → IsAmong (event_of w.observers o) (waits e room calls w)
waits-IsAmong e room zero p o w g h = absurd (omega arith)
waits-IsAmong e room (suc calls) p o w g h =
    rw (waits_step e room calls w) (elim (Bool-cases (ltb p room)) [
      | inl near ↦ (
        p,
        get_elem?-append (map (event_of w.observers) (take room (w.events e)))
            (waits e room calls (after_delivery e room w)) p (event_of w.observers o)
            (get_elem?-map-take (event_of w.observers) (w.events e) room p o (ground (arith, near))
              g),
      )
      | inr far ↦ waits_later e room calls p o w (
          waits-IsAmong e room calls (p - room) o (after_delivery e room w)
            (moved_up e room p o w (ground (arith, far)) g)
            (below room p calls h (ground (arith, far))))
    ])
