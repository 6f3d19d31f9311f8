-- ===== src/Runtime/Unreadable.antt =====
-- pkg/runtime/lock.go: what Acquire does when Owner cannot read the lock's file.
use xk6_disruptor.Prelude.{ℕ, ◌≡◌, refl, ap, ◌∙◌, ◌≢◌, Bool, true, none, some, Error, ok}
use xk6_disruptor.Runtime.Files.{Files, owner, read_owner, link}
use xk6_disruptor.Runtime.Temporary.{IsSound, create_temp_lock_lem}
use xk6_disruptor.Runtime.Exclusion.{owner_cases, owner_of, owner-clean_up}
use xk6_disruptor.Runtime.Race.{no_errors}
use xk6_disruptor.Runtime.Lock.{
  LockErrors, is_alive, is_me, create_temp_lock, linked_again, contend, link_lock, acquire,
}

-- The file system refuses to read the lock's file, and nothing else.
abbrev pub unreadable : Error → LockErrors
unreadable e = record no_errors { read = some e }

-- The lock's file is taken away.
abbrev replaced : ℕ → Files → Files
replaced me f = record f { lock = f.temp me }

link_over :
    (alive : ℕ → Bool) (me j : ℕ) (e : Error) (f : Files)
    → f.lock ≡ some j
    → link_lock alive (unreadable e) me (link none me f) ≡ (ok true, replaced me f)
unfolding link_lock link contend read_owner is_me is_alive linked_again
link_over alive me j e f l = rw l refl

-- When Owner cannot read the lock's file, Acquire takes the lock of another process, also of one
-- that runs, and tells the caller that it holds it: where the file system gives no other error, and
-- no two processes share a temporary file.
pub unreadable_lock_taken :
    (alive : ℕ → Bool) (me p : ℕ) (e : Error) (f : Files)
    → IsSound f
    → owner f ≡ some p
    → p ≢ me
    → ((acquire alive (unreadable e) me f).0 ≡ some (ok true))
      × (owner (acquire alive (unreadable e) me f).1 ≡ some me)
unfolding acquire create_temp_lock
unreadable_lock_taken alive me p e f h o ne =
    let s = create_temp_lock_lem (unreadable e) me f h in
    let g = (create_temp_lock (unreadable e) me f).1 in
    let (j, l, c) = owner_cases f p o in
    let (i, at, mine) = s.at refl in
    let over = link_over alive me j e g (s.same_lock ∙ l) in
    (
      ap (λ x. some x.0) over,
      owner-clean_up (unreadable e) me (link_lock alive (unreadable e) me (link none me g)).1
          ∙ ap (λ x. owner x.1) over
          ∙ owner_of (replaced me g) me i at mine,
    )
