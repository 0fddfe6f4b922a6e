-- ===== src/AdvisoryLock/Contexts.antt =====
-- AdvisoryLockMap: the contexts of the inodes, under the map's lock. An inode is a number.
use junction.Prelude.{ℕ, ◌≡◌, ◌==◌, refl, if◌then◌else◌, List, [], ◌∷◌, arith}
use junction.AdvisoryLock.{AdvisoryLock, drop_locks_for_pid}

pub record Context : Type 0 where
  pub inode : ℕ
  pub holders : List AdvisoryLock

-- GetCtx: the locks of the inode, and the map with a context for it.
pub get_ctx : ℕ → List Context → List AdvisoryLock × List Context
get_ctx ino [] = ([], record { inode = ino; holders = [] } ∷ [])
get_ctx ino (c ∷ cs) =
    let (locks, rest) = get_ctx ino cs in
    if c.inode == ino then (c.holders, c ∷ cs) else (locks, c ∷ rest)

pub notify_inode_destroy : ℕ → List Context → List Context
notify_inode_destroy ino [] = []
notify_inode_destroy ino (c ∷ cs) =
    let rest = notify_inode_destroy ino cs in if c.inode == ino then rest else c ∷ rest

pub notify_proc_destroy : ℕ → List Context → List Context
notify_proc_destroy pid [] = []
notify_proc_destroy pid (c ∷ cs) =
    record c { holders = drop_locks_for_pid pid c.holders } ∷ notify_proc_destroy pid cs

-- An inode that is destroyed has no locks left, also if another inode gets its address.
pub get_ctx-notify_inode_destroy :
    (ino : ℕ) (cs : List Context) → (get_ctx ino (notify_inode_destroy ino cs)).0 ≡ []
unfolding get_ctx notify_inode_destroy
get_ctx-notify_inode_destroy ino [] = refl
get_ctx-notify_inode_destroy ino (c ∷ cs) = ground (arith, get_ctx-notify_inode_destroy ino cs)
