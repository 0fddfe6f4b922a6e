-- ===== src/FileTable/Slots.antt =====
-- The array of slots: reading after each of its changes.
use junction.Prelude.{
  ℕ, zero, suc, ◌≡◌, ◌+◌, ◌-◌, ◌<◌, ◌≤◌, refl, Bool, true, false, ◌&&◌, not, ◌==◌, if◌then◌else◌,
  leb, List, [], ◌∷◌, ◌++◌, arith, ap, Option, none, some, Bool-cases, inl, inr,
}
use junction.FileTable.{length, slot, set_slot, empty_slots, is_present, first_empty, close_slots}

pub slot_beyond : {A : Type 0} (xs : List (Option A)) (i : ℕ) → length xs ≤ i → slot xs i ≡ none
unfolding length slot
slot_beyond [] i h = refl
slot_beyond (x ∷ xs) zero h = ground arith
slot_beyond (x ∷ xs) (suc i) h = slot_beyond xs i (omega arith)

pub slot-set_slot :
    {A : Type 0} (xs : List (Option A)) (i : ℕ) (v : Option A) (k : ℕ)
    → i < length xs
    → slot (set_slot i v xs) k ≡ (if k == i then v else slot xs k)
unfolding length slot set_slot
slot-set_slot [] i v k h = ground arith
slot-set_slot (x ∷ xs) zero v zero h = ground arith
slot-set_slot (x ∷ xs) zero v (suc k) h = ground arith
slot-set_slot (x ∷ xs) (suc i) v zero h = ground arith
slot-set_slot (x ∷ xs) (suc i) v (suc k) h = ground (arith, slot-set_slot xs i v k)

pub length-set_slot :
    {A : Type 0} (xs : List (Option A)) (i : ℕ) (v : Option A)
    → length (set_slot i v xs) ≡ length xs
unfolding length set_slot
length-set_slot [] i v = refl
length-set_slot (x ∷ xs) zero v = refl
length-set_slot (x ∷ xs) (suc i) v = omega (arith, length-set_slot xs i v)

slot-empty_slots : {A : Type 0} (n k : ℕ) → slot (empty_slots {A = A} n) k ≡ none
unfolding slot empty_slots
slot-empty_slots zero k = refl
slot-empty_slots (suc n) zero = refl
slot-empty_slots (suc n) (suc k) = slot-empty_slots n k

pub slot-grown :
    {A : Type 0} (xs : List (Option A)) (n k : ℕ) → slot (xs ++ empty_slots n) k ≡ slot xs k
unfolding slot
slot-grown [] n k = slot-empty_slots n k
slot-grown (x ∷ xs) n zero = refl
slot-grown (x ∷ xs) n (suc k) = slot-grown xs n k

pub length-grown :
    {A : Type 0} (xs : List (Option A)) (n : ℕ) → length (xs ++ empty_slots n) ≡ length xs + n
unfolding length empty_slots
length-grown [] zero = refl
length-grown {A = A} [] (suc n) = omega (arith, length-grown {A = A} [] n)
length-grown (x ∷ xs) n = omega (arith, length-grown xs n)

pub slot-close_slots :
    {A : Type 0} (closing : ℕ → Bool) (i : ℕ) (xs : List (Option A)) (k : ℕ)
    → slot (close_slots closing i xs) k ≡ (if closing (i + k) then none else slot xs k)
unfolding slot close_slots
slot-close_slots closing i [] k = ground arith
slot-close_slots closing i (x ∷ xs) zero = ground arith
slot-close_slots closing i (x ∷ xs) (suc k) =
    let shift : i + 1 + k ≡ i + suc k = omega arith in
    ground (arith, slot-close_slots closing (i + 1) xs k, ap closing shift)

-- The first empty slot from `lowest` on, in slots that are counted from `i`.
unfoldable pub IsFirst : {A : Type 0} → ℕ → ℕ → List (Option A) → Option ℕ → Type 0
IsFirst lowest i xs none = (k : ℕ) → lowest ≤ i + k → k < length xs → is_present (slot xs k) ≡ true
IsFirst lowest i xs (some j) =
    (lowest ≤ j)
    × (i ≤ j)
    × (j < i + length xs)
    × (is_present (slot xs (j - i)) ≡ false)
    × ((k : ℕ) → lowest ≤ i + k → i + k < j → is_present (slot xs k) ≡ true)

before_step :
    {A : Type 0} (lowest i j : ℕ) (x : Option A) (xs : List (Option A))
    → (leb lowest i && not (is_present x)) ≡ false
    → ((k : ℕ) → lowest ≤ i + 1 + k → i + 1 + k < j → is_present (slot xs k) ≡ true)
    → (k : ℕ) → lowest ≤ i + k
    → i + k < j
    → is_present (slot (x ∷ xs) k) ≡ true
unfolding slot
before_step lowest i j x xs miss f zero l u = ground arith
before_step lowest i j x xs miss f (suc k) l u = f k (omega arith) (omega arith)

IsFirst-step :
    {A : Type 0} (lowest i : ℕ) (x : Option A) (xs : List (Option A)) (r : Option ℕ)
    → (leb lowest i && not (is_present x)) ≡ false
    → IsFirst lowest (i + 1) xs r
    → IsFirst lowest i (x ∷ xs) r
unfolding IsFirst slot length
IsFirst-step lowest i x xs none miss f = λ k l u.
    before_step lowest i (suc (i + length xs)) x xs miss (λ m b c. f m b (omega arith)) k l
      (omega arith)
IsFirst-step lowest i x xs (some j) miss (l, b, u, e, f) =
    let shift : j - i ≡ suc (j - (i + 1)) = omega arith in
    (l, omega arith, omega arith, rw shift e, before_step lowest i j x xs miss f)

pub first_empty_lem :
    {A : Type 0} (lowest i : ℕ) (xs : List (Option A))
    → IsFirst lowest i xs (first_empty lowest i xs)
unfolding IsFirst first_empty length slot
first_empty_lem lowest i [] = λ k l u. ground arith
first_empty_lem lowest i (x ∷ xs) = elim (Bool-cases (leb lowest i && not (is_present x))) [
  | inl hit ↦
      let zeroth : i - i ≡ 0 = omega arith in
      rw (hit, zeroth)
        (ground arith, omega arith, omega arith, ground arith, (λ k l u. ground arith))
  | inr miss ↦ rw miss (
      IsFirst-step lowest i x xs (first_empty lowest (i + 1) xs) miss
        (first_empty_lem lowest (i + 1) xs))
]
