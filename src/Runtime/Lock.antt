-- ===== src/Runtime/Lock.antt =====
-- pkg/runtime/lock.go: Acquire, Release and Owner, as whole calls of one process.
use xk6_disruptor.Prelude.{
  ℕ, Bool, true, false, not, ◌&&◌, Option, none, some, Error, message, is_some, Result, ok, err,
  ◌==◌, if◌then◌else◌,
}
use xk6_disruptor.Runtime.Files.{
  set, Files, read_owner, create, Linked, linked, exists, failed, link, unlink, same_file,
}

-- The errors, other than an existing path, that the file system gives for the calls of Acquire.
pub record LockErrors : Type 0 where
  pub create : Option Error
  pub write : Option Error
  pub link : Option Error
  -- os.ReadFile in Owner, and Signal
  pub read : Option Error
  pub signal : Option Error
  pub remove : Option Error
  pub link_again : Option Error
  -- os.Stat of the temporary file and of the lock, and os.Remove of the temporary file
  pub stat_temp : Option Error
  pub stat_lock : Option Error
  pub remove_temp : Option Error

abbrev pub not_owner : Error
not_owner = message "process is not owner of lock file"

-- os.LinkError for a path that exists
abbrev pub file_exists : Error
file_exists = message "file exists"

-- isAlive at the processes that run, where Signal to one that runs may fail, as it does without permission.
unfoldable pub is_alive : (ℕ → Bool) → Option Error → Option ℕ → Bool
is_alive alive signal none = false
is_alive alive signal (some pid) = alive pid && not (is_some signal)

unfoldable pub is_me : ℕ → Option ℕ → Bool
is_me me none = false
is_me me (some pid) = pid == me

-- os.Remove of the temporary file, of which the error is dropped.
unfoldable pub remove_temporary : LockErrors → ℕ → Files → Files
remove_temporary errors me f =
    if is_some errors.remove_temp then f else record f { temp = set me none f.temp }

unfoldable pub create_temp_lock : LockErrors → ℕ → Files → Option Error × Files
unfolding create remove_temporary
create_temp_lock errors me f =
    let (i, f') = create me f in
    if is_some errors.create
    then (errors.create, f)
    else if is_some errors.write
    then (errors.write, remove_temporary errors me f')
    else (none, record f' { content = set i (some me) f'.content })

-- The deferred function: the temporary file goes, unless it is the lock; os.SameFile of a file of which Stat
-- failed is false. With an unexpected error of the first Stat it panics.
unfoldable pub clean_up : LockErrors → ℕ → Files → Files
unfolding remove_temporary
clean_up errors me f =
    if is_some errors.stat_temp
    then f
    else if not (is_some (f.temp me))
    then f
    else if not (is_some errors.stat_lock) && same_file f.lock (f.temp me)
    then f
    else remove_temporary errors me f

unfoldable pub linked_again : Linked × Files → Result Bool × Files
linked_again (linked, f) = (ok true, f)
linked_again (exists, f) = (err file_exists, f)
linked_again (failed e, f) = (err e, f)

-- Some other process may own the lock.
unfoldable pub contend : (ℕ → Bool) → LockErrors → ℕ → Files → Result Bool × Files
unfolding read_owner is_me is_alive linked_again link
contend alive errors me f =
    if is_me me (read_owner errors.read f)
    then (ok true, f)
    else if is_alive alive errors.signal (read_owner errors.read f)
    then (ok false, f)
    else (elim errors.remove [
      | some e ↦ (err e, f)
      | none ↦ linked_again (link errors.link_again me (unlink f))
    ])

unfoldable pub link_lock : (ℕ → Bool) → LockErrors → ℕ → Linked × Files → Result Bool × Files
unfolding contend
link_lock alive errors me (linked, f) = (ok true, f)
link_lock alive errors me (failed e, f) = (err e, f)
link_lock alive errors me (exists, f) = contend alive errors me f

-- The result is none for the panic of the deferred function.
unfoldable pub acquire : (ℕ → Bool) → LockErrors → ℕ → Files → Option (Result Bool) × Files
unfolding create_temp_lock link_lock link clean_up
acquire alive errors me f =
    let (e, f₁) = create_temp_lock errors me f in
    let (acquired, f₂) = link_lock alive errors me (link errors.link me f₁) in
    let result = if is_some errors.stat_temp then none else some acquired in
    elim e [ some failure ↦ (some (err failure), f₁) | none ↦ (result, clean_up errors me f₂) ]

-- The errors of os.ReadFile in Owner and of os.Remove.
unfoldable pub release : Option Error → Option Error → ℕ → Files → Option Error × Files
unfolding read_owner is_me
release read_error remove_error me f =
    if is_me me (read_owner read_error f)
    then (elim remove_error [ some e ↦ (some e, f) | none ↦ (none, unlink f) ])
    else (some not_owner, f)
