-- ===== src/Poll/Epoll/Steps.antt =====
-- Histories of epoll files and their sources, and which observers are ready after them.
use junction.Prelude.{ℕ, ◌≡◌, refl, ap, fun_ext, Bool, true, false, if◌then◌else◌, [], arith, some}
use junction.Poll.{Mask, edge_bit, hits}
use junction.Poll.Epoll.{World, find, source_set, source_clear, add, modify, delete, deliver_events}
use junction.Poll.Epoll.Store.{count, live, Inv}
use junction.Poll.Epoll.Ready.{source_set-Inv, source_clear-Inv}
use junction.Poll.Epoll.Moves.{add-Inv, modify-Inv, delete-Inv}
use junction.Poll.Epoll.Deliver.{deliver_events-Inv}
use junction.Poll.Epoll.Sync.{
  plain, Synced, source_set-Synced, source_clear-Synced, add-Synced, modify-Synced, delete-Synced,
  deliver_events-Synced,
}

-- No epoll file watches anything; the sources have the masks that Init gave them.
abbrev pub start : (ℕ → Mask) → World
start masks = record {
  observers = λ o. record {
    attached = false;
    one_shot_triggered = false;
    epollf = 0;
    f = 0;
    watched_events = λ k. false;
    triggered_events = λ k. false;
    user_data = 0;
  };
  sources = λ s. record { event_mask = masks s; epoll_observers = [] };
  events = λ e. [];
  next = 0;
}

-- A source changes its mask, epoll_ctl changes what is watched, or epoll_wait reports.
pub data Step (w : World) : World → Type 0 where
  sets :
      {t : World} (s : ℕ) (mask : Mask) (force_notify : Bool)
      → t ≡ source_set s mask force_notify w
      → Step w t
  clears : {t : World} (s : ℕ) (mask : Mask) → t ≡ source_clear s mask w → Step w t
  adds :
      {t : World} (e s : ℕ) (events : Mask) (user_data : ℕ)
      → t ≡ (add e s events user_data false (λ k. false) w).1
      → Step w t
  modifies :
      {t : World} (e s : ℕ) (events : Mask) (user_data : ℕ)
      → t ≡ (modify e s events user_data w).1
      → Step w t
  deletes : {t : World} (e s : ℕ) → t ≡ (delete e s w).1 → Step w t
  reports : {t : World} (e room : ℕ) → t ≡ (deliver_events e room w).1 → Step w t

pub data Reach (masks : ℕ → Mask) : World → Type 0 where
  begin : Reach masks (start masks)
  after : {w t : World} → Reach masks w → Step w t → Reach masks t

-- The observer is not changed while it has EPOLLONESHOT or EPOLLEXCLUSIVE.
abbrev pub IsPlainly : {w t : World} → ℕ → Step w t → Type 0
IsPlainly {w} o (modifies e s events user_data r) =
    find e (w.sources s).epoll_observers w ≡ some o → plain (w.observers o) ≡ true
IsPlainly o (sets s mask force_notify r) = Unit
IsPlainly o (clears s mask r) = Unit
IsPlainly o (adds e s events user_data r) = Unit
IsPlainly o (deletes e s r) = Unit
IsPlainly o (reports e room r) = Unit

-- A history in which this holds of every step.
abbrev pub ArePlainly : {masks : ℕ → Mask} {w : World} → ℕ → Reach masks w → Type 0
ArePlainly o begin = Unit
ArePlainly o (after r s) = ArePlainly o r × IsPlainly o s

start-Inv : (masks : ℕ → Mask) → Inv (start masks)
start-Inv masks = (
  (λ e o. refl),
  (λ o. ground arith),
  ((λ s o h. ground (arith, h)), (λ o h. ground (arith, h))),
  (λ s e. omega arith),
)

Step-Inv : (w t : World) → Step w t → Inv w → Inv t
Step-Inv w t (sets s mask force_notify r) v = rw r (source_set-Inv s mask force_notify w v)
Step-Inv w t (clears s mask r) v = rw r (source_clear-Inv s mask w v)
Step-Inv w t (adds e s events user_data r) v =
    rw r (add-Inv e s events user_data false (λ k. false) w v)
Step-Inv w t (modifies e s events user_data r) v = rw r (modify-Inv e s events user_data w v)
Step-Inv w t (deletes e s r) v = rw r (delete-Inv e s w v)
Step-Inv w t (reports e room r) v = rw r (deliver_events-Inv e room w v)

Step-Synced : (o : ℕ) (w t : World) (s : Step w t) → IsPlainly o s → Inv w → Synced o w → Synced o t
Step-Synced o w t (sets s mask force_notify r) c v h =
    rw r (source_set-Synced o s mask force_notify w v h)
Step-Synced o w t (clears s mask r) c v h = rw r (source_clear-Synced o s mask w v h)
Step-Synced o w t (adds e s events user_data r) c v h =
    rw r (add-Synced o e s events user_data false w v h)
Step-Synced o w t (modifies e s events user_data r) c v h =
    rw r (modify-Synced o e s events user_data w v h c)
Step-Synced o w t (deletes e s r) c v h = rw r (delete-Synced o e s w v h)
Step-Synced o w t (reports e room r) c v h = rw r (deliver_events-Synced o e room w h)

pub Reach-Inv : (masks : ℕ → Mask) (w : World) → Reach masks w → Inv w
Reach-Inv masks w begin = start-Inv masks
Reach-Inv masks w (after {w = u} r s) = Step-Inv u w s (Reach-Inv masks u r)

Reach-Synced :
    (o : ℕ) (masks : ℕ → Mask) (w : World) (r : Reach masks w) → ArePlainly o r → Synced o w
Reach-Synced o masks w begin c = λ k l p. ground (arith, l)
Reach-Synced o masks w (after {w = u} r s) (c, d) =
    Step-Synced o u w s d (Reach-Inv masks u r) (Reach-Synced o masks u r c)

-- After any history in which EPOLL_CTL_MOD never meets the observer while it has EPOLLONESHOT or
-- EPOLLEXCLUSIVE, an observer that is on the list of its source, without EPOLLET, EPOLLONESHOT and
-- EPOLLEXCLUSIVE, stands on the list of ready observers of its epoll file exactly while the mask of its
-- source has an event that it watches, and stands there once.
pub reached_ready :
    (masks : ℕ → Mask) (w : World) (o : ℕ)
    → (r : Reach masks w) → ArePlainly o r
    → live w o ≡ true
    → plain (w.observers o) ≡ true
    → (w.observers o).watched_events edge_bit ≡ false
    → count o (w.events (w.observers o).epollf) ≡ (
        if hits (w.sources (w.observers o).f).event_mask (w.observers o).watched_events
        then 1
        else 0)
reached_ready masks w o r c l p level =
    let v = Reach-Inv masks w r in
    let h = Reach-Synced o masks w r c in
    let seen : (w.observers o).triggered_events ≡ (w.sources (w.observers o).f).event_mask =
      fun_ext (λ k. h k l p) in
    ground (
      arith,
      v.0 (w.observers o).epollf o,
      v.1 o,
      l,
      level,
      ap (λ m. hits m (w.observers o).watched_events) seen,
    )
