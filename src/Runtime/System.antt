-- ===== src/Runtime/System.antt =====
-- pkg/runtime/lock.go: agents that start, die, and call Acquire and Release in any order, each call as
-- one step. What two calls do to one another is in Race.antt.
use xk6_disruptor.Prelude.{
  ℕ, ◌≡◌, refl, sym, ap, ◌∙◌, ◌≢◌, ◌⊎◌, inl, inr, Bool, true, false, ◌&&◌, ◌||◌, Option, none, some,
  arith, Error, is_some, Result, ok, err, Bool-cases, Option-cases,
}
use xk6_disruptor.Runtime.Files.{set, Files, owner, read_owner, unlink}
use xk6_disruptor.Runtime.Lock.{LockErrors, is_me, acquire, release}
use xk6_disruptor.Runtime.Temporary.{IsSound}
use xk6_disruptor.Runtime.Exclusion.{acquire_lem}

-- The processes that run, and those that were told they have the lock and did not release it.
pub record System : Type 0 where
  pub files : Files
  pub alive : ℕ → Bool
  pub holds : ℕ → Bool

abbrev pub got : Option (Result Bool) → Bool
got none = false
got (some (ok b)) = b
got (some (err e)) = false

unfoldable pub after_acquire : LockErrors → ℕ → System → System
unfolding acquire
after_acquire errors me s =
    let r = acquire s.alive errors me s.files in
    record s { files = r.1; holds = set me (s.holds me || got r.0) s.holds }

unfoldable pub after_release : Option Error → Option Error → ℕ → System → System
unfolding release
after_release read e me s =
    let r = release read e me s.files in
    record s { files = r.1; holds = set me (s.holds me && is_some r.0) s.holds }

-- A process dies without a release, and loses what it was told; a process id may be used again. In a call of
-- Acquire the lock's file can be read, and a process that runs can be signalled.
pub data Step : System → System → Type 0 where
  acquires :
      (s : System) (errors : LockErrors) (me : ℕ)
      → s.alive me ≡ true
      → errors.read ≡ none
      → errors.signal ≡ none
      → (errors.write ≡ none) ⊎ (s.holds me ≡ false)
      → Step s (after_acquire errors me s)
  releases :
      (s : System) (read e : Option Error) (me : ℕ)
      → s.alive me ≡ true
      → Step s (after_release read e me s)
  dies :
      (s : System) (me : ℕ)
      → Step s (record s { alive = set me false s.alive; holds = set me false s.holds })
  starts :
      (s : System) (me : ℕ) → s.alive me ≡ false → Step s (record s { alive = set me true s.alive })

pub data Reach (s : System) : System → Type 0 where
  here : Reach s s
  next : {t u : System} → Reach s t → Step t u → Reach s u

-- Nothing is on the disk, and nobody holds the lock.
abbrev pub initial : (ℕ → Bool) → System
initial alive = record {
  files = record { next = 0; lock = none; temp = λ p. none; content = λ i. none };
  alive = alive;
  holds = λ p. false;
}

record IsOwned (s : System) : Type 0 where
  sound : IsSound s.files
  lives : (p : ℕ) → s.holds p ≡ true → s.alive p ≡ true
  owned : (p : ℕ) → s.holds p ≡ true → owner s.files ≡ some p

initial-IsOwned : (alive : ℕ → Bool) → IsOwned (initial alive)
initial-IsOwned alive = record {
  sound = record {
    fresh_lock = λ i e. cc;
    fresh_temp = λ p i e. cc;
    apart = λ p q i e d. cc;
    signed = λ p i r e d. cc;
  };
  lives = λ p e. cc;
  owned = λ p e. cc;
}

set-true :
    (p me : ℕ) (b : Bool) (g : ℕ → Bool)
    → set me b g p ≡ true
    → ((p ≡ me) × (b ≡ true)) ⊎ ((p ≢ me) × (g p ≡ true))
set-true p me b g e = ground arith

got-true : (r : Option (Result Bool)) → got r ≡ true → r ≡ some (ok true)
got-true none e = cc
got-true (some (ok b)) e = ap (λ x. some (ok x)) e
got-true (some (err x)) e = cc

module _ (s : System) (h : IsOwned s) where
  acquirer_owns :
      (errors : LockErrors) (me : ℕ)
      → errors.read ≡ none
      → errors.signal ≡ none
      → (errors.write ≡ none) ⊎ (s.holds me ≡ false)
      → (s.holds me || got (acquire s.alive errors me s.files).0) ≡ true
      → owner (acquire s.alive errors me s.files).1 ≡ some me
  acquirer_owns errors me readable signalled w e =
      let a = acquire_lem s.alive errors me s.files h.sound readable signalled in
      elim (Bool-cases (s.holds me)) [
        | inl held ↦ elim w [
          | inl n ↦ a.kept me (h.owned me held) (inl n) (inl refl)
          | inr free ↦ absurd (let f : false ≡ true = sym free ∙ held in cc)
        ]
        | inr free ↦ a.taken (got-true _ (rw free at e))
      ]

  after_acquire-IsOwned :
      (errors : LockErrors) (me : ℕ)
      → s.alive me ≡ true
      → errors.read ≡ none
      → errors.signal ≡ none
      → (errors.write ≡ none) ⊎ (s.holds me ≡ false)
      → IsOwned (after_acquire errors me s)
  unfolding after_acquire
  after_acquire-IsOwned errors me run readable signalled w =
      let a = acquire_lem s.alive errors me s.files h.sound readable signalled in
      record {
        sound = a.sound;
        lives = λ p e. ground (arith, h.lives p);
        owned = λ p e. elim (set-true p me _ s.holds e) [
          | inr (other, o) ↦ a.kept p (h.owned p o) (inr other) (inr (h.lives p o))
          | inl (own, o) ↦ acquirer_owns errors me readable signalled w o ∙ ap some (sym own)
        ];
      }

  unlink-IsSound : IsSound (unlink s.files)
  unlink-IsSound = record {
    fresh_lock = λ i e. cc;
    fresh_temp = h.sound.fresh_temp;
    apart = h.sound.apart;
    signed = h.sound.signed;
  }

  -- No other process holds a lock that the file says is one's own.
  released :
      (me p : ℕ)
      → set me (s.holds me && false) s.holds p ≡ true
      → (read : Option Error) → is_me me (read_owner read s.files) ≡ true
      → ⊥
  unfolding is_me read_owner
  released me p l (some x) own = absurd cc
  released me p l none own = elim (set-true p me (s.holds me && false) s.holds l) [
    | inl (same, b) ↦ ground arith
    | inr (other, b) ↦
        let e : is_me me (some p) ≡ true = rw (h.owned p b) at own in ground (arith, e)
  ]

  after_release-IsOwned :
      (read e : Option Error) (me : ℕ) → s.alive me ≡ true → IsOwned (after_release read e me s)
  unfolding after_release
  after_release-IsOwned read e me run = elim (Bool-cases (is_me me (read_owner read s.files))) [
    | inr other ↦
        rw (release, other)
          record {
            sound = h.sound;
            lives = λ p l. ground (arith, h.lives p);
            owned = λ p l. ground (arith, h.owned p);
          }
    | inl own ↦ elim (Option-cases e) [
      | inr (x, n) ↦
          rw (release, own, n)
            record {
              sound = h.sound;
              lives = λ p l. ground (arith, h.lives p);
              owned = λ p l. ground (arith, h.owned p);
            }
      | inl n ↦
          rw (release, own, n)
            record {
              sound = unlink-IsSound;
              lives = λ p l. ground (arith, h.lives p);
              owned = λ p l. absurd (released me p l read own);
            }
    ]
  ]

  after_death-IsOwned :
      (me : ℕ) → IsOwned (record s { alive = set me false s.alive; holds = set me false s.holds })
  after_death-IsOwned me = record {
    sound = h.sound;
    lives = λ p e. ground (arith, h.lives p);
    owned = λ p e. ground (arith, h.owned p);
  }

Step-IsOwned : {s t : System} → Step s t → IsOwned s → IsOwned t
Step-IsOwned (acquires s errors me run readable signalled w) h =
    after_acquire-IsOwned s h errors me run readable signalled w
Step-IsOwned (releases s read e me run) h = after_release-IsOwned s h read e me run
Step-IsOwned (dies s me) h = after_death-IsOwned s h me
Step-IsOwned (starts s me out) h = record {
  sound = h.sound;
  lives = λ p e. ground (arith, h.lives p);
  owned = h.owned;
}

Reach-IsOwned : {s t : System} → Reach s t → IsOwned s → IsOwned t
Reach-IsOwned here h = h
Reach-IsOwned (next r st) h = Step-IsOwned st (Reach-IsOwned r h)

-- However agents start, die, and call Acquire and Release, each call as one step, no two processes
-- at a time are told that they hold the lock, and the lock's file names the one that is: from an
-- empty directory, where in Acquire the lock's file can be read and a process that runs can be
-- signalled, a process that holds the lock does not fail to write its temporary file, and one that
-- dies holds nothing; whatever other errors the file system gives.
pub mutual_exclusion :
    {alive : ℕ → Bool} {s : System} (p q : ℕ)
    → Reach (initial alive) s
    → s.holds p ≡ true
    → s.holds q ≡ true
    → (p ≡ q) × (owner s.files ≡ some p)
mutual_exclusion {alive} p q r hp hq =
    let h = Reach-IsOwned r (initial-IsOwned alive) in
    (cc (h.owned p hp, h.owned q hq), h.owned p hp)
