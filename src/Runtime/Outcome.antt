-- ===== src/Runtime/Outcome.antt =====
-- pkg/runtime/lock.go: what Acquire tells a process, where the file system gives no error.
use xk6_disruptor.Prelude.{
  ℕ, ◌≡◌, refl, sym, ap, ◌∙◌, ◌⊎◌, inl, inr, Bool, true, not, ◌||◌, Option, none, some, arith, ok,
  ◌==◌, ==_iff, ==_refl, Bool-cases, Option-cases,
}
use xk6_disruptor.Runtime.Files.{Files, owner, read_owner, create, link}
use xk6_disruptor.Runtime.Temporary.{IsSound, create_temp_lock_lem}
use xk6_disruptor.Runtime.Exclusion.{owner_cases, owner_of}
use xk6_disruptor.Runtime.Race.{no_errors}
use xk6_disruptor.Runtime.Lock.{
  is_alive, is_me, create_temp_lock, linked_again, contend, link_lock, acquire,
}

-- The lock is one's own, or no live process owns it.
unfoldable pub may_take : (ℕ → Bool) → ℕ → Option ℕ → Bool
unfolding is_alive is_me
may_take alive me o = is_me me o || not (is_alive alive none o)

take_lem :
    (alive : ℕ → Bool) (me : ℕ) (f : Files)
    → (link_lock alive no_errors me (link none me f)).0 ≡ ok (may_take alive me (owner f))
unfolding link_lock link contend linked_again owner read_owner may_take
take_lem alive me f = elim (Option-cases f.lock) [
  | inl l ↦ rw l refl
  | inr (i, l) ↦ elim (Bool-cases (is_me me (f.content i))) [
    | inl own ↦ rw (l, own) refl
    | inr other ↦ elim (Bool-cases (is_alive alive none (f.content i))) [
      | inl lives ↦ rw (l, other, lives) refl
      | inr dead ↦ rw (l, other, dead) refl
    ]
  ]
]

content_cases :
    (me j : ℕ) (f : Files)
    → let f' = (create_temp_lock no_errors me f).1 in
      (f'.content j ≡ some me) ⊎ (f'.content j ≡ f.content j) ⊎ (j ≡ f.next)
unfolding create_temp_lock create
content_cases me j f = elim (Option-cases (f.temp me)) [
  | inl n ↦ rw (create, n) (ground arith)
  | inr (i, n) ↦ rw (create, n) (ground arith)
]

may_take_me : (alive : ℕ → Bool) (me : ℕ) → may_take alive me (some me) ≡ true
unfolding is_me may_take
may_take_me alive me = rw (==_refl me) refl

may_take-none : (alive : ℕ → Bool) (me : ℕ) → may_take alive me none ≡ true
unfolding is_me is_alive may_take
may_take-none alive me = refl

no_lock : (f : Files) → f.lock ≡ none → owner f ≡ none
unfolding owner
no_lock f l = rw l refl

same_owner :
    (f' f : Files) (j : ℕ)
    → f'.lock ≡ some j
    → f.lock ≡ some j
    → f'.content j ≡ f.content j
    → owner f' ≡ owner f
unfolding owner
same_owner f' f j l' l e = rw (l', l) e

module _ (alive : ℕ → Bool) (me : ℕ) (f : Files) (h : IsSound f) where
  kept :
      (p j : ℕ)
      → f.lock ≡ some j
      → f.content j ≡ some p
      → owner (create_temp_lock no_errors me f).1 ≡ some p
  kept p j l c =
      let s = create_temp_lock_lem no_errors me f h in
      owner_of _ p j (s.same_lock ∙ l) (elim (Bool-cases (p == me)) [
        | inl own ↦ let e = (==_iff p me).0 own in s.own refl j l (c ∙ ap some e) ∙ ap some (sym e)
        | inr other ↦ s.others p j (ground (arith, other)) l c
      ])

  owner_after_create :
      let f' = (create_temp_lock no_errors me f).1 in
      (owner f' ≡ owner f) ⊎ ((owner f ≡ none) × (owner f' ≡ some me))
  owner_after_create =
      let s = create_temp_lock_lem no_errors me f h in
      elim (Option-cases (owner f)) [
        | inr (p, o) ↦ let (j, l, c) = owner_cases f p o in inl (kept p j l c ∙ sym o)
        | inl o ↦ elim (Option-cases f.lock) [
          | inl l ↦ inl (no_lock (create_temp_lock no_errors me f).1 (s.same_lock ∙ l) ∙ sym o)
          | inr (j, l) ↦ elim (content_cases me j f) [
            | inl mine ↦ inr (o, owner_of _ me j (s.same_lock ∙ l) mine)
            | inr (inl same) ↦
                inl (same_owner (create_temp_lock no_errors me f).1 f j (s.same_lock ∙ l) l same)
            | inr (inr fresh) ↦ absurd (omega (arith, h.fresh_lock j l))
          ]
        ]
      ]

  -- Where the system gives no error, Acquire tells the process that it holds the lock exactly when
  -- the lock is its own or no live process owns it, and else that it does not: for any files in
  -- which no two processes share a temporary file.
  pub acquire_outcome : (acquire alive no_errors me f).0 ≡ some (ok (may_take alive me (owner f)))
  unfolding acquire create_temp_lock
  acquire_outcome =
      ap some (take_lem alive me (create_temp_lock no_errors me f).1)
      ∙ ap (λ b. some (ok b))
          (elim owner_after_create [
            | inl same ↦ ap (may_take alive me) same
            | inr (free, mine) ↦
                ap (may_take alive me) mine
                ∙ may_take_me alive me
                ∙ sym (ap (may_take alive me) free ∙ may_take-none alive me)
          ])
