-- ===== src/Runtime/Exclusion.antt =====
-- pkg/runtime/lock.go: agents that start, die, and call Acquire and Release in any order, each call as
-- one step. What two calls do to one another is in Race.antt.
use xk6_disruptor.Prelude.{
  ℕ, ◌<◌, ◌≡◌, refl, ap, ◌∙◌, ◌≢◌, ◌⊎◌, inl, inr, Bool, true, false, Option, none, some, is_some,
  not, ◌&&◌, if◌then◌else◌, arith, Error, Result, ok, err, ◌==◌, ==_iff, Bool-cases, Option-cases,
}
use xk6_disruptor.Runtime.Files.{Files, owner, exists, link, unlink, same_file}
use xk6_disruptor.Runtime.Lock.{
  LockErrors, create_temp_lock, remove_temporary, clean_up, linked_again, contend, link_lock,
  acquire,
}
use xk6_disruptor.Runtime.Temporary.{
  IsSound, create_temp_lock_lem, remove_temporary-IsSound, remove_temporary_same,
}

-- What a call that may take the lock gives back: a result, and the file system with the lock and the
-- temporary files as they should be.
record Taken (alive : ℕ → Bool) (me : ℕ) (f : Files) (r : Result Bool) (f' : Files) : Type 0 where
  sound : IsSound f'
  taken : r ≡ ok true → owner f' ≡ some me
  kept : (p : ℕ) → owner f ≡ some p → (p ≡ me) ⊎ (alive p ≡ true) → owner f' ≡ some p

with_lock : Option ℕ → Files → Files
with_lock l f = record f { lock = l }

with_lock-IsSound :
    (l : Option ℕ) (f : Files)
    → ((i : ℕ) → l ≡ some i → i < f.next)
    → IsSound f
    → IsSound (with_lock l f)
unfolding with_lock
with_lock-IsSound l f fresh h = record {
  fresh_lock = fresh;
  fresh_temp = h.fresh_temp;
  apart = h.apart;
  signed = h.signed;
}

link_there :
    (e : Option Error) (me i : ℕ) (f : Files)
    → e ≡ none
    → f.lock ≡ some i
    → link e me f ≡ (exists, f)
unfolding link
link_there e me i f n l = rw (n, l) refl

module _ (alive : ℕ → Bool) (errors : LockErrors) (me j : ℕ) (f : Files) (h : IsSound f)
    (at : f.temp me ≡ some j) (mine : f.content j ≡ some me) where
  owner_after_link : owner (with_lock (f.temp me) f) ≡ some me
  unfolding owner with_lock
  owner_after_link = rw at mine

  link-IsSound : IsSound (with_lock (f.temp me) f)
  link-IsSound = with_lock-IsSound (f.temp me) f (h.fresh_temp me) h

  unlink-IsSound : IsSound (unlink f)
  unfolding with_lock
  unlink-IsSound = with_lock-IsSound none f (λ i e. cc) h

  -- The lock's file is taken away, and linked anew, only where no live process owns it.
  replaced : Result Bool × Files
  unfolding linked_again link
  replaced = elim errors.remove [
    | some e ↦ (err e, f)
    | none ↦ linked_again (link errors.link_again me (unlink f))
  ]

  replaced_lem :
      ((p : ℕ) → owner f ≡ some p → (p ≡ me) ⊎ (alive p ≡ true) → ⊥)
      → Taken alive me f replaced.0 replaced.1
  unfolding replaced
  replaced_lem stale = elim (Option-cases errors.remove) [
    | inr (e, r) ↦ rw r record { sound = h; taken = λ n. absurd (cc); kept = λ p o l. o }
    | inl r ↦ elim (Option-cases errors.link_again) [
      | inr (e, l) ↦
          rw (r, l)
            record {
              sound = unlink-IsSound;
              taken = λ n. absurd (cc);
              kept = λ p o w. absurd (stale p o w);
            }
      | inl l ↦
          rw (r, l)
            record {
              sound = unfold with_lock in link-IsSound;
              taken = λ n. unfold with_lock in owner_after_link;
              kept = λ p o w. absurd (stale p o w);
            }
    ]
  ]

  contend_lem :
      errors.read ≡ none
      → errors.signal ≡ none
      → Taken alive me f (contend alive errors me f).0 (contend alive errors me f).1
  unfolding contend replaced
  contend_lem readable signalled = elim (Option-cases (owner f)) [
    | inl n ↦ rw (readable, n) (replaced_lem (λ p o w. cc))
    | inr (q, n) ↦ elim (Bool-cases (q == me)) [
      | inl own ↦
          rw (readable, n, own)
            record { sound = h; taken = λ r. rw n (ground (arith, own)); kept = λ p o w. o }
      | inr other ↦ elim (Bool-cases (alive q)) [
        | inl lives ↦
            rw (readable, n, other, signalled, lives)
              record { sound = h; taken = λ r. absurd (cc); kept = λ p o w. o }
        | inr dead ↦ rw (readable, n, other, signalled, dead) (replaced_lem (λ p o w. ground arith))
      ]
    ]
  ]

  link_lock_lem :
      errors.read ≡ none
      → errors.signal ≡ none
      → let r = link_lock alive errors me (link errors.link me f) in Taken alive me f r.0 r.1
  unfolding link_lock link
  link_lock_lem readable signalled = elim (Option-cases errors.link) [
    | inr (e, n) ↦ rw n record { sound = h; taken = λ r. absurd (cc); kept = λ p o w. o }
    | inl n ↦ elim (Option-cases f.lock) [
      | inr (i, l) ↦ rw (link_there errors.link me i f n l) (contend_lem readable signalled)
      | inl l ↦
          rw (n, l)
            record {
              sound = unfold with_lock in link-IsSound;
              taken = λ r. unfold with_lock in owner_after_link;
              kept = λ p o w. absurd (let e : none ≡ some p = unfold owner in o in cc);
            }
    ]
  ]

-- The deferred function leaves the files, or removes the temporary one.
pub clean_up_cases :
    (errors : LockErrors) (me : ℕ) (f : Files)
    → (clean_up errors me f ≡ f) ⊎ (clean_up errors me f ≡ remove_temporary errors me f)
unfolding clean_up
clean_up_cases errors me f = elim (Bool-cases (is_some errors.stat_temp)) [
  | inl a ↦ rw a (inl refl)
  | inr a ↦ elim (Bool-cases (is_some (f.temp me))) [
    | inr b ↦ rw (a, b) (inl refl)
    | inl b ↦ elim (Bool-cases (not (is_some errors.stat_lock) && same_file f.lock (f.temp me))) [
      | inl c ↦ rw (a, b, c) (inl refl)
      | inr c ↦ rw (a, b, c) (inr refl)
    ]
  ]
]

clean_up-IsSound :
    (errors : LockErrors) (me : ℕ) (f : Files) → IsSound f → IsSound (clean_up errors me f)
clean_up-IsSound errors me f h = elim (clean_up_cases errors me f) [
  | inl e ↦ rw e h
  | inr e ↦ rw e (remove_temporary-IsSound errors me f h)
]

same_owner : (f' f : Files) → (f'.lock ≡ f.lock) → (f'.content ≡ f.content) → owner f' ≡ owner f
unfolding owner
same_owner f' f l c =
    ap (λ x. elim x [ none ↦ none | some i ↦ f'.content i ]) l
    ∙ ap (λ k. elim f.lock [ none ↦ none | some i ↦ k i ]) c

pub owner-clean_up :
    (errors : LockErrors) (me : ℕ) (f : Files) → owner (clean_up errors me f) ≡ owner f
owner-clean_up errors me f = elim (clean_up_cases errors me f) [
  | inl e ↦ rw e refl
  | inr e ↦
      let same = remove_temporary_same errors me f in
      rw e (same_owner (remove_temporary errors me f) f same.0 same.1)
]

clean_up_lem :
    (alive : ℕ → Bool) (errors : LockErrors) (me : ℕ) (f : Files) (r : Result Bool) (f' : Files)
    → Taken alive me f r f'
    → Taken alive me f r (clean_up errors me f')
clean_up_lem alive errors me f r f' t = record {
  sound = clean_up-IsSound errors me f' t.sound;
  taken = λ e. owner-clean_up errors me f' ∙ t.taken e;
  kept = λ p o w. owner-clean_up errors me f' ∙ t.kept p o w;
}

pub owner_cases :
    (f : Files) (p : ℕ) → owner f ≡ some p → (j : ℕ) × (f.lock ≡ some j) × (f.content j ≡ some p)
unfolding owner
owner_cases f p o = elim (Option-cases f.lock) [
  | inl n ↦ absurd (let e : none ≡ some p = rw (n, owner) at o in cc)
  | inr (j, n) ↦ (j, n, rw n at o)
]

pub owner_of : (f : Files) (p j : ℕ) → f.lock ≡ some j → f.content j ≡ some p → owner f ≡ some p
unfolding owner
owner_of f p j l c = rw l c

not_panicked :
    (b : Bool) (r : Result Bool) → (if b then none else some r) ≡ some (ok true) → r ≡ ok true
not_panicked true r e = absurd (cc)
not_panicked false r e = cc

-- What a whole call of Acquire gives back. A process that fails to write its temporary file may empty the
-- lock's file that it owns.
pub record Acquired (alive : ℕ → Bool) (errors : LockErrors) (me : ℕ) (f : Files)
    (r : Option (Result Bool)) (f' : Files) : Type 0 where
  pub sound : IsSound f'
  pub taken : r ≡ some (ok true) → owner f' ≡ some me
  pub kept :
      (p : ℕ)
      → owner f ≡ some p
      → (errors.write ≡ none) ⊎ (p ≢ me)
      → (p ≡ me) ⊎ (alive p ≡ true)
      → owner f' ≡ some p

module _ (alive : ℕ → Bool) (errors : LockErrors) (me : ℕ) (f : Files) (h : IsSound f) where
  own_kept :
      (p j : ℕ)
      → p ≡ me
      → (errors.write ≡ none) ⊎ (p ≢ me)
      → f.lock ≡ some j
      → f.content j ≡ some p
      → (create_temp_lock errors me f).1.content j ≡ some p
  own_kept p j e w l c = elim w [
    | inl n ↦ rw e ((create_temp_lock_lem errors me f h).own n j l (cc))
    | inr n ↦ absurd (n e)
  ]

  create_keeps :
      (p : ℕ)
      → owner f ≡ some p
      → (errors.write ≡ none) ⊎ (p ≢ me)
      → owner (create_temp_lock errors me f).1 ≡ some p
  create_keeps p o w =
      let s = create_temp_lock_lem errors me f h in
      let (j, l, c) = owner_cases f p o in
      owner_of (create_temp_lock errors me f).1 p j (s.same_lock ∙ l) (elim (Bool-cases (p == me)) [
        | inl own ↦ own_kept p j ((==_iff p me).0 own) w l c
        | inr other ↦ s.others p j (ground (arith, other)) l c
      ])

  pub acquire_lem :
      errors.read ≡ none
      → errors.signal ≡ none
      → Acquired alive errors me f (acquire alive errors me f).0 (acquire alive errors me f).1
  unfolding acquire
  acquire_lem readable signalled =
      let s = create_temp_lock_lem errors me f h in
      elim (Option-cases (create_temp_lock errors me f).0) [
        | inr (e, n) ↦
            rw (acquire, n)
              record {
                sound = s.sound;
                taken = λ r. absurd (cc);
                kept = λ p o w l. create_keeps p o w;
              }
        | inl n ↦
            let (j, at, mine) = s.at n in
            let t =
              link_lock_lem alive errors me j (create_temp_lock errors me f).1 s.sound at mine
                readable signalled in
            let c = clean_up_lem alive errors me (create_temp_lock errors me f).1 _ _ t in
            rw (acquire, n)
              record {
                sound = c.sound;
                taken = λ r. c.taken (not_panicked (is_some errors.stat_temp) _ r);
                kept = λ p o w l. c.kept p (create_keeps p o w) l;
              }
      ]
