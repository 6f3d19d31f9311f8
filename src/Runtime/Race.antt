-- ===== src/Runtime/Race.antt =====
-- pkg/runtime/lock.go: the parts of Acquire one by one, so that those of two processes can interleave. A part
-- is createTempLock, a Link, Owner with isAlive, Remove, or the deferred function: each groups the system
-- calls that it makes. No call fails but for what the other process does.
use xk6_disruptor.Prelude.{
  ℕ, zero, suc, ◌≡◌, refl, ap, ◌∙◌, ◌≢◌, inl, inr, Bool, true, false, Option, none, some, List, [],
  ◌∷◌, arith, Error, message, Result, ok, err, if◌then◌else◌, ==_refl, Bool-cases, Option-cases,
}
use xk6_disruptor.Runtime.Files.{
  set, Files, owner, read_owner, create, Linked, linked, exists, failed, link, unlink,
}
use xk6_disruptor.Runtime.Temporary.{IsSound, create_temp_lock_lem}
use xk6_disruptor.Runtime.Exclusion.{owner_cases, owner_of, owner-clean_up}
use xk6_disruptor.Runtime.Lock.{
  LockErrors, is_alive, is_me, create_temp_lock, clean_up, linked_again, contend, link_lock,
  acquire, file_exists,
}

abbrev pub no_errors : LockErrors
no_errors = record {
  create = none;
  write = none;
  link = none;
  read = none;
  signal = none;
  remove = none;
  link_again = none;
  stat_temp = none;
  stat_lock = none;
  remove_temp = none;
}

-- os.PathError for a path that does not exist
abbrev pub not_found : Error
not_found = message "no such file or directory"

-- Where a call of Acquire stands.
pub data Stage : Type 0 where
  -- before createTempLock, before the first Link, before Owner and isAlive
  entered created found : Stage
  -- before Remove, before the second Link
  stale removed : Stage
  -- before the deferred function, after it
  leaving finished : Result Bool → Stage

first_link : Linked × Files → Stage × Files
first_link (linked, f) = (leaving (ok true), f)
first_link (exists, f) = (found, f)
first_link (failed e, f) = (leaving (err e), f)

second_link : Linked × Files → Stage × Files
second_link (linked, f) = (leaving (ok true), f)
second_link (exists, f) = (leaving (err file_exists), f)
second_link (failed e, f) = (leaving (err e), f)

judge : (ℕ → Bool) → ℕ → Option ℕ → Stage
unfolding is_me is_alive
judge alive me o =
    if is_me me o
    then leaving (ok true)
    else if is_alive alive none o
    then leaving (ok false)
    else stale

remove : Files → Stage × Files
remove f = elim f.lock [ none ↦ (leaving (err not_found), f) | some i ↦ (removed, unlink f) ]

-- The next part of the process's call.
unfoldable pub advance : (ℕ → Bool) → ℕ → Stage → Files → Stage × Files
unfolding create_temp_lock first_link second_link judge remove clean_up link owner read_owner
advance alive me entered f = (created, (create_temp_lock no_errors me f).1)
advance alive me created f = first_link (link none me f)
advance alive me found f = (judge alive me (owner f), f)
advance alive me stale f = remove f
advance alive me removed f = second_link (link none me f)
advance alive me (leaving r) f = (finished r, clean_up no_errors me f)
advance alive me (finished r) f = (finished r, f)

unfoldable pub alone : ℕ → (ℕ → Bool) → ℕ → Stage × Files → Stage × Files
unfolding advance
alone zero alive me (stage, f) = (stage, f)
alone (suc n) alive me (stage, f) = alone n alive me (advance alive me stage f)

-- Several processes: where each stands, and the file system that they share.
abbrev pub Calls : Type 0
Calls = (ℕ → Stage) × Files

unfoldable pub turn : (ℕ → Bool) → ℕ → Calls → Calls
unfolding advance
turn alive me (at, f) = let r = advance alive me (at me) f in (set me r.0 at, r.1)

unfoldable pub run : (ℕ → Bool) → List ℕ → Calls → Calls
unfolding turn
run alive [] c = c
run alive (p ∷ ps) c = run alive ps (turn alive p c)

-- What a call that is alone comes to.
after_clean_up : ℕ → Result Bool × Files → Stage × Files
after_clean_up me (r, f) = (finished r, clean_up no_errors me f)

link_there : (me i : ℕ) (f : Files) → f.lock ≡ some i → link none me f ≡ (exists, f)
unfolding link
link_there me i f l = rw l refl

link_free :
    (me : ℕ) (f : Files) → f.lock ≡ none → link none me f ≡ (linked, record f { lock = f.temp me })
unfolding link
link_free me f l = rw l refl

remove_there : (f : Files) (i : ℕ) → f.lock ≡ some i → remove f ≡ (removed, unlink f)
unfolding remove
remove_there f i l = rw l refl

module _ (alive : ℕ → Bool) (me : ℕ) (f : Files) where
  from_found :
      (i : ℕ)
      → f.lock ≡ some i
      → alone 4 alive me (found, f) ≡ after_clean_up me (contend alive no_errors me f)
  unfolding alone advance judge contend read_owner second_link linked_again link after_clean_up
  from_found i l = elim (Bool-cases (is_me me (owner f))) [
    | inl own ↦ rw own refl
    | inr other ↦ elim (Bool-cases (is_alive alive none (owner f))) [
      | inl lives ↦ rw (other, lives) refl
      | inr dead ↦ rw (other, dead, remove_there f i l) refl
    ]
  ]

  from_created :
      alone 5 alive me (created, f)
      ≡ after_clean_up me (link_lock alive no_errors me (link none me f))
  unfolding alone advance first_link link_lock after_clean_up
  from_created = elim (Option-cases f.lock) [
    | inl l ↦ rw (link_free me f l) refl
    | inr (i, l) ↦ rw (link_there me i f l) (from_found i l)
  ]

-- A process that makes its parts of the call with no other in between reaches in six of them the result
-- and the files of Acquire as one call, where the file system gives no error.
pub alone-acquire :
    (alive : ℕ → Bool) (me : ℕ) (f : Files)
    → let r = acquire alive no_errors me f in
      (stage : Result Bool) × (r.0 ≡ some stage)
      × (alone 6 alive me (entered, f) ≡ (finished stage, r.1))
unfolding alone advance acquire create_temp_lock after_clean_up
alone-acquire alive me f =
    let g = (create_temp_lock no_errors me f).1 in
    ((link_lock alive no_errors me (link none me g)).0, refl, from_created alive me g)

create_other : (p q : ℕ) (f : Files) → p ≢ q → (create_temp_lock no_errors q f).1.temp p ≡ f.temp p
unfolding create_temp_lock create
create_other p q f ne = elim (Option-cases (f.temp q)) [
  | inl n ↦ rw (create, n) (ground arith)
  | inr (i, n) ↦ rw (create, n) refl
]

module _ (alive : ℕ → Bool) (p q : ℕ) (ne : p ≢ q) where
  -- Where both processes stand, and the file system.
  record At (c : Calls) (sp sq : Stage) (f : Files) : Type 0 where
    at_p : c.0 p ≡ sp
    at_q : c.0 q ≡ sq
    files : c.1 ≡ f

  p_turn :
      {c : Calls} {sp sq : Stage} {f : Files} {r : Stage × Files}
      → At c sp sq f
      → advance alive p sp f ≡ r
      → At (turn alive p c) r.0 sq r.1
  unfolding turn
  p_turn {c} {sp} {sq} {f} {r} a e =
      let d : advance alive p (c.0 p) c.1 ≡ r = rw (a.at_p, a.files) e in
      record { at_p = rw (d, ==_refl p) refl; at_q = ground (arith, a.at_q); files = rw d refl }

  q_turn :
      {c : Calls} {sp sq : Stage} {f : Files} {r : Stage × Files}
      → At c sp sq f
      → advance alive q sq f ≡ r
      → At (turn alive q c) sp r.0 r.1
  unfolding turn
  q_turn {c} {sp} {sq} {f} {r} a e =
      let d : advance alive q (c.0 q) c.1 ≡ r = rw (a.at_q, a.files) e in
      record { at_q = rw (d, ==_refl q) refl; at_p = ground (arith, a.at_p); files = rw d refl }

-- Both judge the owner dead before either removes its lock.
abbrev pub unlucky : ℕ → ℕ → List ℕ
unlucky p q = p ∷ p ∷ p ∷ q ∷ q ∷ q ∷ p ∷ p ∷ q ∷ q ∷ p ∷ q ∷ []

abbrev pub all_enter : Files → Calls
all_enter f = ((λ r. entered), f)

judge_dead :
    (alive : ℕ → Bool) (me d : ℕ) (f : Files)
    → owner f ≡ some d
    → d ≢ me
    → alive d ≡ false
    → advance alive me found f ≡ (stale, f)
unfolding advance judge is_me is_alive
judge_dead alive me d f o other dead = rw (o, dead) (ground (arith, other))

find_there :
    (alive : ℕ → Bool) (me i : ℕ) (f : Files)
    → f.lock ≡ some i
    → advance alive me created f ≡ (found, f)
unfolding advance first_link
find_there alive me i f l = rw (link_there me i f l) refl

remove_stale :
    (alive : ℕ → Bool) (me i : ℕ) (f : Files)
    → f.lock ≡ some i
    → advance alive me stale f ≡ (removed, unlink f)
unfolding advance
remove_stale alive me i f l = remove_there f i l

abbrev locked_by : ℕ → Files → Files
locked_by me f = record f { lock = f.temp me }

link_again :
    (alive : ℕ → Bool) (me : ℕ) (f : Files)
    → advance alive me removed (unlink f) ≡ (leaving (ok true), locked_by me f)
unfolding advance second_link link
link_again alive me f = refl

-- When the lock's file names a dead process, there is an interleaving of the parts of the calls of
-- two other processes in which Acquire tells both of them that they hold the lock, and the file
-- names the second: for any files in which no two processes share a temporary file.
pub both_acquire :
    (alive : ℕ → Bool) (p q d : ℕ) (f : Files)
    → IsSound f
    → owner f ≡ some d
    → alive d ≡ false
    → p ≢ q
    → d ≢ p
    → d ≢ q
    → let c = run alive (unlucky p q) (all_enter f) in
      (c.0 p ≡ finished (ok true)) × (c.0 q ≡ finished (ok true)) × (owner c.1 ≡ some q)
unfolding run advance
both_acquire alive p q d f h o dead ne dp dq =
    let (j, l, c) = owner_cases f d o in
    let sp = create_temp_lock_lem no_errors p f h in
    let g = (create_temp_lock no_errors p f).1 in
    let lg = sp.same_lock ∙ l in
    let og = owner_of g d j lg (sp.others d j dp l c) in
    let sq = create_temp_lock_lem no_errors q g sp.sound in
    let k = (create_temp_lock no_errors q g).1 in
    let lk : k.lock ≡ some j = sq.same_lock ∙ lg in
    let kd = owner_of k d j lk (sq.others d j dq lg (sp.others d j dp l c)) in
    let (jp, tp, cp) = sp.at refl in
    let (jq, tq, cq) = sq.at refl in
    let kp : k.temp p ≡ some jp = create_other p q g ne ∙ tp in
    let taken = owner_of (locked_by q k) q jq tq cq in
    let a₀ : At alive p q ne (all_enter f) entered entered f = record {
      at_p = refl;
      at_q = refl;
      files = refl;
    } in
    let a₁ = p_turn alive p q ne (p_turn alive p q ne a₀ refl) (find_there alive p j g lg) in
    let a₂ = p_turn alive p q ne a₁ (judge_dead alive p d g og dp dead) in
    let a₃ = q_turn alive p q ne (q_turn alive p q ne a₂ refl) (find_there alive q j k lk) in
    let a₄ = q_turn alive p q ne a₃ (judge_dead alive q d k kd dq dead) in
    let a₅ = p_turn alive p q ne a₄ (remove_stale alive p j k lk) in
    let a₆ = p_turn alive p q ne a₅ (link_again alive p k) in
    let a₇ = q_turn alive p q ne a₆ (remove_stale alive q jp (locked_by p k) kp) in
    let a₈ = q_turn alive p q ne a₇ (link_again alive q k) in
    let a₉ = q_turn alive p q ne (p_turn alive p q ne a₈ refl) refl in
    (
      a₉.at_p,
      a₉.at_q,
      ap owner a₉.files
          ∙ owner-clean_up no_errors q (clean_up no_errors p (locked_by q k))
          ∙ owner-clean_up no_errors p (locked_by q k)
          ∙ taken,
    )
