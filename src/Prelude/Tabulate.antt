-- ===== src/Prelude/Tabulate.antt =====
-- Lists given by a function of the index.
use Prim.Native.Nat.{ℕ, zero, suc, ◌+◌, ◌-◌, ◌≤◌, ◌<◌}
use mathlib.Core.Path.{◌≡◌, refl, ap, ap₂, ◌∙◌, sym}
use mathlib.Core.List.{List, [], ◌∷◌, ◌++◌}
use native.Mathlib.Omega.{arith}
use junction.Prelude.Tests.{ltb, if◌then◌else◌}
use junction.Prelude.Lists.{length, get_or, take, drop}

module _ {ℓ} {A : Type ℓ} where
  abbrev pub tabulate : (ℕ → A) → ℕ → List A
  tabulate f zero = []
  tabulate f (suc n) = f 0 ∷ tabulate (λ i. f (suc i)) n

  pub tabulate_cong :
      (f g : ℕ → A) (n : ℕ) → ((i : ℕ) → i < n → f i ≡ g i) → tabulate f n ≡ tabulate g n
  tabulate_cong f g zero h = refl
  tabulate_cong f g (suc n) h =
      ap₂ ◌∷◌ (h 0 (omega arith))
        (tabulate_cong (λ i. f (suc i)) (λ i. g (suc i)) n (λ i p. h (suc i) (omega arith)))

  tabulate_len : (f : ℕ → A) (m n : ℕ) → m ≡ n → tabulate f m ≡ tabulate f n
  tabulate_len f m n e = ap (tabulate f) e

  pub tabulate-add :
      (f : ℕ → A) (m n : ℕ) → tabulate f (m + n) ≡ tabulate f m ++ tabulate (λ i. f (m + i)) n
  tabulate-add f zero n =
      tabulate_len f (zero + n) n (omega arith)
      ∙ tabulate_cong f (λ i. f (zero + i)) n (λ i p. let e : i ≡ zero + i = omega arith in ap f e)
  tabulate-add f (suc m) n =
      tabulate_len f (suc m + n) (suc (m + n)) (omega arith)
      ∙ ap (◌∷◌ (f 0)) (
          tabulate-add (λ i. f (suc i)) m n
          ∙ ap (◌++◌ (tabulate (λ i. f (suc i)) m)) (
              tabulate_cong (λ i. f (suc (m + i))) (λ i. f (suc m + i)) n
                (λ i p. let e : suc (m + i) ≡ suc m + i = omega arith in ap f e)))

  pub length-tabulate : (f : ℕ → A) (n : ℕ) → length (tabulate f n) ≡ n
  length-tabulate f zero = refl
  length-tabulate f (suc n) = ap suc (length-tabulate (λ i. f (suc i)) n)

  pub take-tabulate : (f : ℕ → A) (k n : ℕ) → k ≤ n → take k (tabulate f n) ≡ tabulate f k
  take-tabulate f zero n h = refl
  take-tabulate f (suc k) zero h = absurd (omega arith)
  take-tabulate f (suc k) (suc n) h =
      ap (◌∷◌ (f 0)) (take-tabulate (λ i. f (suc i)) k n (omega arith))

  pub drop-tabulate :
      (f : ℕ → A) (k n : ℕ) → drop k (tabulate f n) ≡ tabulate (λ i. f (k + i)) (n - k)
  drop-tabulate f zero n =
      tabulate_cong f (λ i. f (zero + i)) n (λ i p. let e : i ≡ zero + i = omega arith in ap f e)
      ∙ tabulate_len (λ i. f (zero + i)) n (n - zero) (omega arith)
  drop-tabulate f (suc k) zero = tabulate_len (λ i. f (suc k + i)) zero (zero - suc k) (omega arith)
  drop-tabulate f (suc k) (suc n) =
      drop-tabulate (λ i. f (suc i)) k n
      ∙ (tabulate_cong (λ i. f (suc (k + i))) (λ i. f (suc k + i)) (n - k)
            (λ i p. let e : suc (k + i) ≡ suc k + i = omega arith in ap f e)
          ∙ tabulate_len (λ i. f (suc k + i)) (n - k) (suc n - suc k) (omega arith))

  pub tabulate-get_or : (d : A) (xs : List A) → tabulate (λ i. get_or xs i d) (length xs) ≡ xs
  tabulate-get_or d [] = refl
  tabulate-get_or d (x ∷ xs) = ap (◌∷◌ x) (tabulate-get_or d xs)

  -- A slice of a list within its bounds.
  pub take-drop :
      (d : A) (s n : ℕ) (xs : List A)
      → s + n ≤ length xs
      → take n (drop s xs) ≡ tabulate (λ i. get_or xs (s + i) d) n
  take-drop d s n xs h =
      ap (λ (l : List A). take n (drop s l)) (sym (tabulate-get_or d xs))
      ∙ (ap (take n) (drop-tabulate (λ i. get_or xs i d) s (length xs))
          ∙ take-tabulate (λ i. get_or xs (s + i) d) n (length xs - s) (omega arith))

  pub get_or-append :
      (d : A) (xs ys : List A) (i : ℕ)
      → get_or (xs ++ ys) i d
        ≡ (if ltb i (length xs) then get_or xs i d else get_or ys (i - length xs) d)
  get_or-append d [] ys i = ground arith
  get_or-append d (x ∷ xs) ys zero = ground arith
  get_or-append d (x ∷ xs) ys (suc i) = ground (arith, get_or-append d xs ys i)

  pub get_or-take : (d : A) (n i : ℕ) (xs : List A) → i < n → get_or (take n xs) i d ≡ get_or xs i d
  get_or-take d zero i xs h = absurd (omega arith)
  get_or-take d (suc n) i [] h = refl
  get_or-take d (suc n) zero (x ∷ xs) h = refl
  get_or-take d (suc n) (suc i) (x ∷ xs) h = get_or-take d n i xs (omega arith)

  pub get_or-drop : (d : A) (n i : ℕ) (xs : List A) → get_or (drop n xs) i d ≡ get_or xs (n + i) d
  get_or-drop d zero i xs = let e : i ≡ zero + i = omega arith in ap (λ (k : ℕ). get_or xs k d) e
  get_or-drop d (suc n) i [] = refl
  get_or-drop d (suc n) i (x ∷ xs) =
      get_or-drop d n i xs
      ∙ (let e : suc (n + i) ≡ suc n + i = omega arith in ap (λ (k : ℕ). get_or (x ∷ xs) k d) e)
