-- ===== src/Runtime/Temporary.antt =====
-- pkg/runtime/lock.go: what the temporary files and the lock's file hold, and what a call of
-- createTempLock keeps of it.
use xk6_disruptor.Prelude.{
  ℕ, suc, ◌<◌, ◌≡◌, refl, ◌≢◌, ◌⊎◌, inl, inr, Option, none, some, arith, Error, Option-cases, ◌∙◌,
  is_some, Bool-cases,
}
use xk6_disruptor.Runtime.Files.{set, Files, create}
use xk6_disruptor.Runtime.Lock.{LockErrors, remove_temporary, create_temp_lock}

-- No two processes share a temporary file, and what is written in one is the process id of its owner.
pub record IsSound (f : Files) : Type 0 where
  pub fresh_lock : (i : ℕ) → f.lock ≡ some i → i < f.next
  pub fresh_temp : (p i : ℕ) → f.temp p ≡ some i → i < f.next
  pub apart : (p q i : ℕ) → f.temp p ≡ some i → f.temp q ≡ some i → p ≡ q
  pub signed : (p i r : ℕ) → f.temp p ≡ some i → f.content i ≡ some r → r ≡ p

abbrev pub with_temp : ℕ → Option ℕ → Files → Files
with_temp me t f = record f { temp = set me t f.temp }

abbrev pub with_content : ℕ → Option ℕ → Files → Files
with_content i c f = record f { content = set i c f.content }

pub with_temp-none-IsSound : (me : ℕ) (f : Files) → IsSound f → IsSound (with_temp me none f)
with_temp-none-IsSound me f h = record {
  fresh_lock = h.fresh_lock;
  fresh_temp = λ p i e. ground (arith, h.fresh_temp p i);
  apart = λ p q i e d. ground (arith, h.apart p q i);
  signed = λ p i r e d. ground (arith, h.signed p i r);
}

-- os.Remove of the temporary file changes nothing else.
pub remove_temporary-IsSound :
    (errors : LockErrors) (me : ℕ) (f : Files) → IsSound f → IsSound (remove_temporary errors me f)
unfolding remove_temporary
remove_temporary-IsSound errors me f h = elim (Bool-cases (is_some errors.remove_temp)) [
  | inl e ↦ rw e h
  | inr e ↦ rw e (with_temp-none-IsSound me f h)
]

pub remove_temporary_same :
    (errors : LockErrors) (me : ℕ) (f : Files)
    → ((remove_temporary errors me f).lock ≡ f.lock)
      × ((remove_temporary errors me f).content ≡ f.content)
unfolding remove_temporary
remove_temporary_same errors me f = elim (Bool-cases (is_some errors.remove_temp)) [
  | inl e ↦ rw e (refl, refl)
  | inr e ↦ rw e (refl, refl)
]

-- Writing in the own temporary file.
pub with_content-IsSound :
    (me i : ℕ) (c : Option ℕ) (f : Files)
    → f.temp me ≡ some i
    → ((r : ℕ) → c ≡ some r → r ≡ me)
    → IsSound f
    → IsSound (with_content i c f)
with_content-IsSound me i c f at own h = record {
  fresh_lock = h.fresh_lock;
  fresh_temp = h.fresh_temp;
  apart = h.apart;
  signed = λ p j r e d. ground (arith, h.signed p j r, own r, h.apart p me i);
}

created : ℕ → Files → Files
created me f = record f {
  next = suc f.next;
  temp = set me (some f.next) f.temp;
  content = set f.next none f.content;
}

created-IsSound : (me : ℕ) (f : Files) → IsSound f → IsSound (created me f)
unfolding created
created-IsSound me f h = record {
  fresh_lock = λ i e. omega (arith, h.fresh_lock i e);
  fresh_temp = λ p i e. ground (arith, h.fresh_temp p i);
  apart = λ p q i e d. ground (arith, h.apart p q i, h.fresh_temp p i, h.fresh_temp q i);
  signed = λ p i r e d. ground (arith, h.signed p i r, h.fresh_temp p i);
}

-- What os.Create leaves.
record Opened (me : ℕ) (f : Files) (i : ℕ) (f' : Files) : Type 0 where
  sound : IsSound f'
  at : f'.temp me ≡ some i
  same_lock : f'.lock ≡ f.lock
  others : (p j : ℕ) → p ≢ me → f.lock ≡ some j → f.content j ≡ some p → f'.content j ≡ some p

create_lem : (me : ℕ) (f : Files) → IsSound f → Opened me f (create me f).0 (create me f).1
unfolding create created
create_lem me f h = elim (Option-cases (f.temp me)) [
  | inl n ↦
      rw (create, n)
        record {
          sound = created-IsSound me f h;
          at = ground arith;
          same_lock = refl;
          others = λ p j ne e d. ground (arith, h.fresh_lock j e);
        }
  | inr (i, n) ↦
      rw (create, n)
        record {
          sound = with_content-IsSound me i none f n (λ r e. cc) h;
          at = n;
          same_lock = refl;
          others = λ p j ne e d. ground (arith, h.signed me i p n);
        }
]

-- What createTempLock leaves: with no error the process id stands in the temporary file, and a
-- lock's file that carries a process id keeps it, unless the own one is emptied by a failed write.
pub record Signed (errors : LockErrors) (me : ℕ) (f : Files) (e : Option Error) (f' : Files)
    : Type 0 where
  pub sound : IsSound f'
  pub same_lock : f'.lock ≡ f.lock
  pub at : e ≡ none → (i : ℕ) × (f'.temp me ≡ some i) × (f'.content i ≡ some me)
  pub others : (p j : ℕ) → p ≢ me → f.lock ≡ some j → f.content j ≡ some p → f'.content j ≡ some p
  pub own :
      errors.write ≡ none
      → (j : ℕ) → f.lock ≡ some j
      → f.content j ≡ some me
      → f'.content j ≡ some me

create_own :
    (me j : ℕ) (f : Files)
    → f.content j ≡ some me
    → ((create me f).0 ≡ j) ⊎ (((create me f).1).content j ≡ some me) ⊎ ((create me f).0 ≡ f.next)
unfolding create
create_own me j f d = elim (Option-cases (f.temp me)) [
  | inl n ↦ rw (create, n) (inr (inr refl))
  | inr (i, n) ↦ rw (create, n) (ground arith)
]

pub create_temp_lock_lem :
    (errors : LockErrors) (me : ℕ) (f : Files)
    → IsSound f
    → Signed errors me f (create_temp_lock errors me f).0 (create_temp_lock errors me f).1
unfolding create_temp_lock
create_temp_lock_lem errors me f h =
    let o = create_lem me f h in
    elim (Option-cases errors.create) [
      | inr (e, c) ↦ rw c record {
        sound = h;
        same_lock = refl;
        at = λ n. absurd (cc);
        others = λ p j ne l d. d;
        own = λ w j l d. d;
      }
      | inl c ↦ elim (Option-cases errors.write) [
        | inr (e, w) ↦
            rw (c, w)
              record {
                sound = remove_temporary-IsSound errors me (create me f).1 o.sound;
                same_lock = (remove_temporary_same errors me (create me f).1).0 ∙ o.same_lock;
                at = λ n. absurd (cc);
                others = λ p j ne l d.
                    rw (remove_temporary_same errors me (create me f).1).1 (o.others p j ne l d);
                own = λ n. absurd (cc);
              }
        | inl w ↦
            rw (c, w)
              record {
                sound = with_content-IsSound me _ (some me) _ o.at (λ r e. ground arith) o.sound;
                same_lock = o.same_lock;
                at = λ n. ((create me f).0, o.at, ground arith);
                others = λ p j ne l d.
                    ground (arith, o.others p j ne l d, o.sound.signed me (create me f).0 p o.at);
                own = λ n j l d. ground (arith, create_own me j f d, h.fresh_lock j l);
              }
      ]
    ]
