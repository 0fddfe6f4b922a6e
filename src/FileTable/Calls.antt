-- ===== src/FileTable/Calls.antt =====
-- fs/file.cc: the system calls that work on descriptors alone. A descriptor is not negative.
use junction.Prelude.{
  ℕ, ◌≡◌, ◌==◌, refl, Bool, true, false, if◌then◌else◌, ltb, not, Option, none, some, Status, ok,
  err, ebadf, einval,
}
use junction.FileTable.{
  FileTable, get, insert, insert_at, remove, remove_range, set_close_on_exec_range, set_bit,
  clear_bit,
}
use junction.FileTable.Table.{IsInstalled, insert_at_lem}

pub dup : {A : Type 0} → ℕ → FileTable A → Status ℕ × FileTable A
dup oldfd t = elim (get oldfd t) [
  | none ↦ (err ebadf, t)
  | some f ↦ let (fd, u) = insert f false 0 t in (ok fd, u)
]

pub dup2 : {A : Type 0} → ℕ → ℕ → FileTable A → Status ℕ × FileTable A
dup2 oldfd newfd t = if oldfd == newfd then (ok newfd, t) else elim (get oldfd t) [
  | none ↦ (err ebadf, t)
  | some f ↦ (ok newfd, insert_at newfd f false t)
]

pub dup3 : {A : Type 0} → ℕ → ℕ → Bool → FileTable A → Status ℕ × FileTable A
dup3 oldfd newfd cloexec t = if oldfd == newfd then (err einval, t) else elim (get oldfd t) [
  | none ↦ (err ebadf, t)
  | some f ↦ (ok newfd, insert_at newfd f cloexec t)
]

pub close : {A : Type 0} → ℕ → FileTable A → Status ℕ × FileTable A
close fd t = let (found, u) = remove fd t in if found then (ok 0, u) else (err ebadf, u)

-- `valid_flags` says that no flag but CLOSE_RANGE_CLOEXEC is given.
pub close_range : {A : Type 0} → ℕ → ℕ → Bool → Bool → FileTable A → Status ℕ × FileTable A
close_range first last valid_flags cloexec t =
    if not valid_flags
    then (err einval, t)
    else if ltb last first
    then (err einval, t)
    else if cloexec
    then (ok 0, set_close_on_exec_range first last t)
    else (ok 0, remove_range first last t)

-- The commands of fcntl that work on the table.
pub data Command : Type 0 where
  dupfd dupfd_cloexec getfd setfd : Command

abbrev pub fd_cloexec : ℕ
fd_cloexec = 1

pub fcntl : {A : Type 0} → ℕ → Command → ℕ → FileTable A → Status ℕ × FileTable A
fcntl fd cmd arg t = elim (get fd t) [
  | none ↦ (err ebadf, t)
  | some f ↦ elim cmd [
    | dupfd ↦ let (new, u) = insert f false arg t in (ok new, u)
    | dupfd_cloexec ↦ let (new, u) = insert f true arg t in (ok new, u)
    | getfd ↦ (ok (if t.close_on_exec fd then fd_cloexec else 0), t)
    | setfd ↦
        if arg == fd_cloexec
        then (ok 0, record t { close_on_exec = set_bit fd true t.close_on_exec })
        else if arg == 0
        then (ok 0, record t { close_on_exec = clear_bit fd t.close_on_exec })
        else (err einval, t)
  ]
]

-- What dup2 does for two descriptors: it fails with EBADF and changes nothing if the first is not open,
-- else the second refers to the file of the first and no other descriptor changes.
unfoldable pub IsDup :
    {A : Type 0} → ℕ → ℕ → Option A → FileTable A → Status ℕ × FileTable A → Type 0
IsDup oldfd newfd none t (r, u) = (r ≡ err ebadf) × (u ≡ t)
IsDup oldfd newfd (some f) t (r, u) = (r ≡ ok newfd) × IsInstalled newfd f false t u

-- dup2 to another descriptor makes it refer to the file of the first and changes no other descriptor; it
-- fails with EBADF and changes nothing when the first is not open.
pub dup2_lem :
    {A : Type 0} (oldfd newfd : ℕ) (t : FileTable A)
    → (oldfd == newfd) ≡ false
    → IsDup oldfd newfd (get oldfd t) t (dup2 oldfd newfd t)
unfolding dup2 IsDup
dup2_lem oldfd newfd t apart = rw apart (opened (get oldfd t))
  where
    opened :
        (o : Option _)
        → IsDup oldfd newfd o t
            (elim o [ none ↦ (err ebadf, t) | some f ↦ (ok newfd, insert_at newfd f false t) ])
    opened none = (refl, refl)
    opened (some f) = (refl, insert_at_lem newfd f false t)
