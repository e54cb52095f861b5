-- ===== src/Stack/Os.antt =====
-- What c/stack.c asks of the operating system and of the C library: an unknown state and the calls on it. Two
-- processes are two values of the other types over one state.
use reftable.Base.{ℕ, Bool, true, false, List, ◌++◌, Option, none, some, take, ◌≡◌, ◌≢◌, ◌↔◌}
use reftable.Basics.Names.{Name}
use reftable.Stack.UpToDate.{ListFile, missing, holds}

abbrev pub FilePath : Type 0
FilePath = List ℕ

-- What open(path, O_EXCL | O_CREAT | O_WRONLY) answers: a descriptor, EEXIST, or another error.
pub data Opened : Type 0 where
  opened : ℕ → Opened
  exists failed : Opened

-- Whether `err = write(...)` passes the test `err < 0`, and what it has written of the bytes: write(2) may write a
-- part of them and answer its length.
abbrev pub is_written : Option ℕ → Bool
is_written none = false
is_written (some n) = true

abbrev pub written_part : Option ℕ → List ℕ → List ℕ
written_part none bytes = List.[]
written_part (some n) bytes = take n bytes

-- A Bool is `true` unless the call answers a negative number; `write` answers the bytes that it has written, or
-- `none` for a negative number. `read` is open, lseek, read and close of a
-- whole file; `mkstemp` answers the name that it has made from the template; `read_dir` is opendir and the
-- names that readdir gives; `gettimeofday` answers the seconds and the microseconds.
pub record Os : Type 1 where
  pub State : Type 0
  pub open_excl : State → FilePath → Opened × State
  pub mkstemp : State → FilePath → Option (FilePath × ℕ) × State
  pub write : State → ℕ → List ℕ → Option ℕ × State
  pub close : State → ℕ → Bool × State
  pub rename : State → FilePath → FilePath → Bool × State
  pub unlink : State → FilePath → Bool × State
  pub read : State → FilePath → ListFile
  pub read_dir : State → FilePath → Option (List Name)
  pub rand : State → ℕ × State
  pub gettimeofday : State → Option (ℕ × ℕ) × State
  pub sleep_millisec : State → ℕ → State

-- The files as POSIX describes them, in a directory that nobody else changes and from which the process may
-- remove files. A write may be short. `At s fd p` is that the descriptor writes to the file at p.
pub record IsLawful (os : Os) : Type 1 where
  pub At : os.State → ℕ → FilePath → Type 0
  pub open-exists :
      (s : os.State) (p : FilePath) → ((os.open_excl s p).0 ≡ exists) ↔ (os.read s p ≢ missing)
  pub open-same :
      (s : os.State) (p q : FilePath) → q ≢ p → os.read (os.open_excl s p).1 q ≡ os.read s q
  pub open-new :
      (s : os.State) (p : FilePath) (fd : ℕ)
      → (os.open_excl s p).0 ≡ opened fd
      → (os.read (os.open_excl s p).1 p ≡ holds List.[]) × At (os.open_excl s p).1 fd p
  pub write-at :
      (s : os.State) (fd : ℕ) (p : FilePath) (old new : List ℕ)
      → At s fd p
      → os.read s p ≡ holds old
      → is_written (os.write s fd new).0 ≡ true
      → os.read (os.write s fd new).1 p ≡ holds (old ++ written_part (os.write s fd new).0 new)
  pub write-same :
      (s : os.State) (fd : ℕ) (p q : FilePath) (new : List ℕ)
      → At s fd p
      → q ≢ p
      → os.read (os.write s fd new).1 q ≡ os.read s q
  pub close-same :
      (s : os.State) (fd : ℕ) (q : FilePath) → os.read (os.close s fd).1 q ≡ os.read s q
  pub rename-to :
      (s : os.State) (p q : FilePath)
      → p ≢ q
      → (os.rename s p q).0 ≡ true
      → (os.read (os.rename s p q).1 q ≡ os.read s p) × (os.read (os.rename s p q).1 p ≡ missing)
  pub rename-fails :
      (s : os.State) (p q r : FilePath)
      → (os.rename s p q).0 ≡ false
      → os.read (os.rename s p q).1 r ≡ os.read s r
  pub rename-same :
      (s : os.State) (p q r : FilePath)
      → r ≢ p
      → r ≢ q
      → os.read (os.rename s p q).1 r ≡ os.read s r
  pub unlink-removes : (s : os.State) (p : FilePath) → os.read (os.unlink s p).1 p ≡ missing
  pub unlink-same :
      (s : os.State) (p q : FilePath) → q ≢ p → os.read (os.unlink s p).1 q ≡ os.read s q
  pub rand-same : (s : os.State) (q : FilePath) → os.read (os.rand s).1 q ≡ os.read s q
  pub At-rand : (s : os.State) (fd : ℕ) (p : FilePath) → At s fd p → At (os.rand s).1 fd p
  pub At-rename :
      (s : os.State) (fd : ℕ) (p q r : FilePath)
      → At s fd p
      → p ≢ q
      → p ≢ r
      → At (os.rename s q r).1 fd p
  pub time-same : (s : os.State) (q : FilePath) → os.read (os.gettimeofday s).1 q ≡ os.read s q
  pub sleep-same :
      (s : os.State) (n : ℕ) (q : FilePath) → os.read (os.sleep_millisec s n) q ≡ os.read s q
