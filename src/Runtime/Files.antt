-- ===== src/Runtime/Files.antt =====
-- What pkg/runtime/lock.go uses of the file system: the lock's path, the temporary file of each process
-- beside it, and hard links. A file is a number; its content is the process id written in it, none while
-- it is empty.
use xk6_disruptor.Prelude.{ℕ, suc, Bool, false, Option, none, some, Error, ◌==◌, if◌then◌else◌}

-- A function changed at one number.
abbrev pub set {ℓ} : {A : Type ℓ} → ℕ → A → (ℕ → A) → ℕ → A
set i a f j = if j == i then a else f j

pub record Files : Type 0 where
  -- the next file that os.Create makes
  pub next : ℕ
  pub lock : Option ℕ
  pub temp : ℕ → Option ℕ
  pub content : ℕ → Option ℕ

-- The process id in the lock's file.
unfoldable pub owner : Files → Option ℕ
owner f = elim f.lock [ none ↦ none | some i ↦ f.content i ]

-- Owner: none, for -1, when the file is not there, is empty, or is not read.
unfoldable pub read_owner : Option Error → Files → Option ℕ
unfolding owner
read_owner (some e) f = none
read_owner none f = owner f

-- os.Create of the temporary file: a file that is there is emptied.
unfoldable pub create : ℕ → Files → ℕ × Files
create me f = elim (f.temp me) [
  | some i ↦ (i, record f { content = set i none f.content })
  | none ↦ (
    f.next,
    record f {
      next = suc f.next;
      temp = set me (some f.next) f.temp;
      content = set f.next none f.content;
    },
  )
]

-- What os.Link gives: success, an error that says that the path exists, another error.
pub data Linked : Type 0 where
  linked exists : Linked
  failed : Error → Linked

unfoldable pub link : Option Error → ℕ → Files → Linked × Files
link (some e) me f = (failed e, f)
link none me f = elim f.lock [
  | some i ↦ (exists, f)
  | none ↦ (linked, record f { lock = f.temp me })
]

abbrev pub unlink : Files → Files
unlink f = record f { lock = none }

abbrev pub same_file : Option ℕ → Option ℕ → Bool
same_file none b = false
same_file (some i) none = false
same_file (some i) (some j) = i == j
