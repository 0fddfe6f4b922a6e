-- ===== src/FileTable/Table.antt =====
-- What the operations do to the files of the table and to its close-on-exec bits.
use junction.Prelude.{
  ℕ, ◌≡◌, ◌+◌, ◌-◌, ◌<◌, ◌≤◌, Bool, true, false, ◌&&◌, ◌||◌, not, ◌==◌, if◌then◌else◌, ltb, leb,
  arith, Option, none, some, Bool-cases, inl, inr, ap,
}
use junction.FileTable.{
  FileTable, length, slot, is_present, get, resize, first_empty, install, insert, insert_at, remove,
  in_range, remove_range, do_close_on_exec,
}
use junction.FileTable.Slots.{
  slot_beyond, slot-set_slot, slot-grown, length-grown, slot-close_slots, IsFirst, first_empty_lem,
}

-- A bit is set only for a descriptor that is open.
unfoldable pub IsValid : {A : Type 0} → FileTable A → Type 0
IsValid t = (k : ℕ) → t.close_on_exec k ≡ true → is_present (get k t) ≡ true

resize_files :
    {A : Type 0} (len : ℕ) (t : FileTable A) (k : ℕ)
    → (get k (resize len t) ≡ get k t) × ((resize len t).close_on_exec k ≡ t.close_on_exec k)
unfolding get resize
resize_files len t k = ground (arith, slot-grown t.files (len - length t.files) k)

length-resize :
    {A : Type 0} (len : ℕ) (t : FileTable A)
    → length t.files ≤ len
    → length ((resize len t).files) ≡ len
unfolding resize
length-resize len t h = ground (arith, length-grown t.files (len - length t.files))

-- What installing a file on a descriptor makes of the table.
abbrev pub IsInstalled : {A : Type 0} → ℕ → A → Bool → FileTable A → FileTable A → Type 0
IsInstalled fd f cloexec t u =
    (k : ℕ)
    → (get k u ≡ (if k == fd then some f else get k t))
      × (u.close_on_exec k ≡ (cloexec && k == fd || t.close_on_exec k))

install_lem :
    {A : Type 0} (fd : ℕ) (f : A) (cloexec : Bool) (t : FileTable A)
    → fd < length t.files
    → IsInstalled fd f cloexec t (install fd f cloexec t)
unfolding get install
install_lem fd f cloexec t h k = ground (arith, slot-set_slot t.files fd (some f) k h)

install_resized :
    {A : Type 0} (fd : ℕ) (f : A) (cloexec : Bool) (t : FileTable A)
    → length t.files ≤ fd
    → IsInstalled fd f cloexec t (install fd f cloexec (resize (fd + 1) t))
install_resized fd f cloexec t h k =
    let room : fd < length ((resize (fd + 1) t).files) =
      omega (arith, length-resize (fd + 1) t (omega arith)) in
    ground (arith, install_lem fd f cloexec (resize (fd + 1) t) room k, resize_files (fd + 1) t k)

-- InsertAt (dup2) puts the file on the descriptor and changes no other descriptor; it may set the
-- descriptor's close-on-exec bit, but leaves one that is there.
pub insert_at_lem :
    {A : Type 0} (fd : ℕ) (f : A) (cloexec : Bool) (t : FileTable A)
    → IsInstalled fd f cloexec t (insert_at fd f cloexec t)
unfolding insert_at
insert_at_lem fd f cloexec t = elim (Bool-cases (leb (length t.files) fd)) [
  | inl grow ↦ rw grow (install_resized fd f cloexec t (ground arith))
  | inr fits ↦ rw fits (install_lem fd f cloexec t (ground arith))
]

-- What Insert promises: the lowest descriptor from `lowest` on that was not open, with the file on it.
unfoldable pub IsInserted : {A : Type 0} → A → Bool → ℕ → FileTable A → ℕ × FileTable A → Type 0
IsInserted f cloexec lowest t (fd, u) =
    (lowest ≤ fd)
    × (is_present (get fd t) ≡ false)
    × ((k : ℕ) → lowest ≤ k → k < fd → is_present (get k t) ≡ true)
    × IsInstalled fd f cloexec t u

inserts :
    {A : Type 0} (f : A) (cloexec : Bool) (lowest : ℕ) (t : FileTable A) (r : Option ℕ)
    → IsFirst lowest 0 t.files r
    → IsInserted f cloexec lowest t (elim r [
      | some i ↦ (i, install i f cloexec t)
      | none ↦
          let i = if ltb lowest (length t.files) then length t.files else lowest in
          (i, install i f cloexec (resize (i + 1) t))
    ])
unfolding IsInserted IsFirst get
inserts f cloexec lowest t (some i) (l, b, u, e, g) =
    let whole : i - 0 ≡ i = omega arith in
    (
      l,
      ground (arith, e, ap (slot t.files) whole),
      (λ k h v. g k (omega (arith, h)) (omega (arith, v))),
      install_lem i f cloexec t (omega (arith, u)),
    )
inserts f cloexec lowest t none g = elim (Bool-cases (ltb lowest (length t.files))) [
  | inl below ↦ rw below (
    ground arith,
    ground (arith, slot_beyond t.files (length t.files) (omega arith)),
    (λ k h v. g k (omega (arith, h)) (omega (arith, v))),
    install_resized (length t.files) f cloexec t (omega arith),
  )
  | inr above ↦
      let beyond : length t.files ≤ lowest = ground (arith, above) in
      rw above (
        omega arith,
        ground (arith, slot_beyond t.files lowest beyond),
        (λ k h v. ground (arith, h, v)),
        install_resized lowest f cloexec t beyond,
      )
]

-- Insert puts the file on the lowest descriptor from `lowest` on that is not open, in a hole of the
-- table or behind it, sets its close-on-exec bit if this is asked for, and changes no other descriptor.
pub insert_lem :
    {A : Type 0} (f : A) (cloexec : Bool) (lowest : ℕ) (t : FileTable A)
    → IsInserted f cloexec lowest t (insert f cloexec lowest t)
unfolding insert
insert_lem f cloexec lowest t =
    inserts f cloexec lowest t (first_empty lowest 0 t.files) (first_empty_lem lowest 0 t.files)

-- Inserting a file keeps the bits on open descriptors.
pub insert-IsValid :
    {A : Type 0} (f : A) (cloexec : Bool) (lowest : ℕ) (t : FileTable A)
    → IsValid t
    → IsValid ((insert f cloexec lowest t).1)
unfolding IsValid IsInserted
insert-IsValid f cloexec lowest t v k e =
    let (l, n, b, i) = insert_lem f cloexec lowest t in ground (arith, i k, v k, e)

-- Remove answers whether the descriptor was open, and leaves it closed and without its bit, with the
-- other descriptors as they were.
pub remove_lem :
    {A : Type 0} (fd : ℕ) (t : FileTable A)
    → IsValid t
    → let (found, u) = remove fd t in
      (found ≡ is_present (get fd t))
      × ((k : ℕ)
          → (get k u ≡ (if k == fd then none else get k t))
            × (u.close_on_exec k ≡ (not (k == fd) && t.close_on_exec k)))
unfolding remove get IsValid
remove_lem fd t v = (
  ground (arith, slot_beyond t.files fd),
  (λ k. ground (arith, slot_beyond t.files fd, slot-set_slot t.files fd none k, v k)),
)

-- RemoveRange closes the descriptors of the range and no other, and clears their bits.
pub remove_range_lem :
    {A : Type 0} (low high : ℕ) (t : FileTable A) (k : ℕ)
    → IsValid t
    → (get k (remove_range low high t) ≡ (if in_range low high k then none else get k t))
      × ((remove_range low high t).close_on_exec k
          ≡ (not (in_range low high k) && t.close_on_exec k))
unfolding remove_range get IsValid
remove_range_lem low high t k v =
    ground (arith, slot-close_slots (in_range low high) 0 t.files k, v k)

-- An exec closes the descriptors that are marked, and no other; after it none is marked.
pub do_close_on_exec_lem :
    {A : Type 0} (t : FileTable A) (k : ℕ)
    → (get k (do_close_on_exec t) ≡ (if t.close_on_exec k then none else get k t))
      × ((do_close_on_exec t).close_on_exec k ≡ false)
unfolding do_close_on_exec get
do_close_on_exec_lem t k = ground (arith, slot-close_slots t.close_on_exec 0 t.files k)
