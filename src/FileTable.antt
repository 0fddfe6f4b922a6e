-- ===== src/FileTable.antt =====
-- fs/file.h and file.cc: FileTable. Each operation runs under the table's lock. `A` is the type of a
-- file. What closing a file does, to its inode and to procfs, is not modelled. A negative descriptor is,
-- after the cast to size_t, a number beyond the table.
pub mod Slots
pub mod Table
pub mod Calls
mod Tests
use junction.Prelude.{
  ℕ, zero, suc, ◌+◌, ◌-◌, ◌*◌, Bool, true, false, ◌&&◌, ◌||◌, not, ◌==◌, if◌then◌else◌, ltb, leb,
  List, [], ◌∷◌, ◌++◌, Option, none, some,
}
use junction.ByteChannel.{bit_ceil}

-- The slots below the length of the array; those from there to its capacity are empty. The bits of
-- close_on_exec, and how many it has room for.
pub record FileTable (A : Type 0) : Type 0 where
  pub cap : ℕ
  pub files : List (Option A)
  pub close_on_exec : ℕ → Bool
  pub bitmap_size : ℕ

abbrev pub initial_cap : ℕ
initial_cap = 64

abbrev pub oversize_ratio : ℕ
oversize_ratio = 2

pub init : {A : Type 0} → FileTable A
init = record {
  cap = initial_cap;
  files = [];
  close_on_exec = λ k. false;
  bitmap_size = initial_cap;
}

pub length : {A : Type 0} → List (Option A) → ℕ
length [] = 0
length (x ∷ xs) = suc (length xs)

pub slot : {A : Type 0} → List (Option A) → ℕ → Option A
slot [] i = none
slot (x ∷ xs) zero = x
slot (x ∷ xs) (suc i) = slot xs i

pub set_slot : {A : Type 0} → ℕ → Option A → List (Option A) → List (Option A)
set_slot i v [] = []
set_slot zero v (x ∷ xs) = v ∷ xs
set_slot (suc i) v (x ∷ xs) = x ∷ set_slot i v xs

pub empty_slots : {A : Type 0} → ℕ → List (Option A)
empty_slots zero = []
empty_slots (suc n) = none ∷ empty_slots n

abbrev pub is_present : {A : Type 0} → Option A → Bool
is_present none = false
is_present (some _) = true

-- Get and Dup.
pub get : {A : Type 0} → ℕ → FileTable A → Option A
get fd t = slot t.files fd

-- Resize, for a length that is not below the present one.
pub resize : {A : Type 0} → ℕ → FileTable A → FileTable A
resize len t =
    let new_cap = bit_ceil 64 1 len * oversize_ratio in
    let files = t.files ++ empty_slots (len - length t.files) in
    if ltb t.cap new_cap
    then record t { cap = new_cap; files = files; bitmap_size = new_cap }
    else record t { files = files }

-- The first empty slot that is not below `lowest`, in slots that are counted from `i`.
pub first_empty : {A : Type 0} → ℕ → ℕ → List (Option A) → Option ℕ
first_empty lowest i [] = none
first_empty lowest i (x ∷ xs) =
    let rest = first_empty lowest (i + 1) xs in
    if leb lowest i && not (is_present x) then some i else rest

abbrev pub set_bit : ℕ → Bool → (ℕ → Bool) → ℕ → Bool
set_bit i cloexec bits k = cloexec && k == i || bits k

abbrev pub clear_bit : ℕ → (ℕ → Bool) → ℕ → Bool
clear_bit i bits k = not (k == i) && bits k

-- Install or Replace, and the bit of close_on_exec.
pub install : {A : Type 0} → ℕ → A → Bool → FileTable A → FileTable A
install fd f cloexec t = record t {
  files = set_slot fd (some f) t.files;
  close_on_exec = set_bit fd cloexec t.close_on_exec;
}

pub insert : {A : Type 0} → A → Bool → ℕ → FileTable A → ℕ × FileTable A
insert f cloexec lowest t = elim (first_empty lowest 0 t.files) [
  | some i ↦ (i, install i f cloexec t)
  | none ↦
      let i = if ltb lowest (length t.files) then length t.files else lowest in
      (i, install i f cloexec (resize (i + 1) t))
]

pub insert_at : {A : Type 0} → ℕ → A → Bool → FileTable A → FileTable A
insert_at fd f cloexec t =
    install fd f cloexec (if leb (length t.files) fd then resize (fd + 1) t else t)

pub remove : {A : Type 0} → ℕ → FileTable A → Bool × FileTable A
remove fd t =
    if leb (length t.files) fd
    then (false, t)
    else if not (is_present (slot t.files fd))
    then (false, t)
    else (
      true,
      record t { files = set_slot fd none t.files; close_on_exec = clear_bit fd t.close_on_exec },
    )

-- The slots, counted from `i`, without those that are to be closed.
pub close_slots : {A : Type 0} → (ℕ → Bool) → ℕ → List (Option A) → List (Option A)
close_slots closing i [] = []
close_slots closing i (x ∷ xs) =
    let rest = close_slots closing (i + 1) xs in if closing i then none ∷ rest else x ∷ rest

abbrev pub in_range : ℕ → ℕ → ℕ → Bool
in_range low high fd = leb low fd && leb fd high

pub remove_range : {A : Type 0} → ℕ → ℕ → FileTable A → FileTable A
remove_range low high t = record t {
  files = close_slots (in_range low high) 0 t.files;
  close_on_exec =
      λ fd. not (in_range low high fd && is_present (slot t.files fd)) && t.close_on_exec fd;
}

pub set_close_on_exec_range : {A : Type 0} → ℕ → ℕ → FileTable A → FileTable A
set_close_on_exec_range low high t = record t {
  close_on_exec = λ fd. in_range low high fd && is_present (slot t.files fd) || t.close_on_exec fd;
}

pub do_close_on_exec : {A : Type 0} → FileTable A → FileTable A
do_close_on_exec t = record t {
  files = close_slots t.close_on_exec 0 t.files;
  close_on_exec = λ fd. false;
}
