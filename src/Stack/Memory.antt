-- ===== src/Stack/Memory.antt =====
-- A system whose files are a function from paths, on which the theorems on stacks are applied. It is lawful.
use reftable.Base.{
  ℕ, suc, ◌≡◌, ◌≢◌, ◌↔◌, refl, sym, ◌∙◌, ap, List, [], ◌++◌, Bool, true, false, if◌then◌else◌,
  Option, none, some, Bool-cases, inl, inr, ◌==◌, ==_refl, length, take_all, arith,
}
use reftable.Basics.Bytes.{strcmp, is_eq, is_eq-eq, strcmp_refl, strcmp-eq}
use reftable.Basics.Names.{Name}
use reftable.Stack.UpToDate.{ListFile, missing, unreadable, holds}
use reftable.Stack.Os.{Os, IsLawful, FilePath, Opened, opened, exists, failed}

abbrev same : FilePath → FilePath → Bool
same p q = is_eq (strcmp p q)

-- `target` is the path of a descriptor. Descriptors start at 1, `last` is the last one.
pub record Memory : Type 0 where
  pub read : FilePath → ListFile
  pub target : ℕ → FilePath
  pub last : ℕ
  pub directory : List Name

abbrev update : (FilePath → ListFile) → FilePath → ListFile → FilePath → ListFile
update read p file q = if same q p then file else read q

abbrev add_file : Memory → FilePath → ListFile → Memory
add_file m p file = record m { read = update m.read p file }

-- A descriptor for a new, empty file.
abbrev create : Memory → FilePath → Memory
create m p = record m {
  read = update m.read p (holds []);
  target = λ fd. if fd == suc m.last then p else m.target fd;
  last = suc m.last;
}

abbrev append : ListFile → List ℕ → ListFile
append missing new = missing
append unreadable new = unreadable
append (holds old) new = holds (old ++ new)

abbrev open_new : Memory → FilePath → ListFile → Opened × Memory
open_new m p missing = (opened (suc m.last), create m p)
open_new m p unreadable = (exists, m)
open_new m p (holds bytes) = (exists, m)

abbrev made : FilePath → Opened × Memory → Option (FilePath × ℕ) × Memory
made p (opened fd, m) = (some (p, fd), m)
made p (exists, m) = (none, m)
made p (failed, m) = (none, m)

abbrev move : Memory → FilePath → FilePath → ListFile → Bool × Memory
move m p q missing = (false, m)
move m p q unreadable = (false, m)
move m p q (holds bytes) = (
  true,
  record m {
    read = update (update m.read p missing) q (holds bytes);
    target = λ fd. if same (m.target fd) p then q else m.target fd;
  },
)

abbrev pub memory : Os
memory = record {
  State = Memory;
  open_excl = λ m p. open_new m p (m.read p);
  mkstemp = λ m p. made p (open_new m p (m.read p));
  write =
      λ m fd new. (some (length new), add_file m (m.target fd) (append (m.read (m.target fd)) new));
  close = λ m fd. (true, m);
  rename = λ m p q. move m p q (m.read p);
  unlink = λ m p. (true, add_file m p missing);
  read = λ m p. m.read p;
  read_dir = λ m p. some m.directory;
  rand = λ m. (0, m);
  gettimeofday = λ m. (some (0, 0), m);
  sleep_millisec = λ m n. m;
}

same_refl : (p : FilePath) → same p p ≡ true
same_refl p = rw (strcmp_refl p)

same-false : (p q : FilePath) → p ≢ q → same p q ≡ false
same-false p q h = elim (Bool-cases (same p q)) [
  | inl e ↦ absurd (h (strcmp-eq p q (is_eq-eq (strcmp p q) e)))
  | inr e ↦ e
]

update-same : (f : FilePath → ListFile) (p : FilePath) (x : ListFile) → update f p x p ≡ x
update-same f p x = rw (same_refl p)

update-other :
    (f : FilePath → ListFile) (p q : FilePath) (x : ListFile) → q ≢ p → update f p x q ≡ f q
update-other f p q x h = rw (same-false q p h)

open_new-exists :
    (m : Memory) (p : FilePath) (file : ListFile)
    → ((open_new m p file).0 ≡ exists) ↔ (file ≢ missing)
open_new-exists m p missing = (λ e. cc, λ h. absurd (h refl))
open_new-exists m p unreadable = (λ e g. cc, λ h. refl)
open_new-exists m p (holds bytes) = (λ e g. cc, λ h. refl)

open_new-same :
    (m : Memory) (p q : FilePath) (file : ListFile)
    → q ≢ p
    → (open_new m p file).1.read q ≡ m.read q
open_new-same m p q missing h = update-other m.read p q (holds []) h
open_new-same m p q unreadable h = refl
open_new-same m p q (holds bytes) h = refl

open_new-new :
    (m : Memory) (p : FilePath) (fd : ℕ) (file : ListFile)
    → (open_new m p file).0 ≡ opened fd
    → ((open_new m p file).1.read p ≡ holds []) × ((open_new m p file).1.target fd ≡ p)
open_new-new m p fd missing e =
    let same_fd : suc m.last ≡ fd = cc e in
    (update-same m.read p (holds []), rw (sym same_fd) (rw (==_refl (suc m.last))))
open_new-new m p fd unreadable e = cc
open_new-new m p fd (holds bytes) e = cc

move-to :
    (m : Memory) (p q : FilePath) (file : ListFile)
    → m.read p ≡ file
    → p ≢ q
    → (move m p q file).0 ≡ true
    → ((move m p q file).1.read q ≡ m.read p) × ((move m p q file).1.read p ≡ missing)
move-to m p q missing f h e = cc
move-to m p q unreadable f h e = cc
move-to m p q (holds bytes) f h e = (
  update-same (update m.read p missing) q (holds bytes) ∙ sym f,
  update-other (update m.read p missing) q p (holds bytes) h ∙ update-same m.read p missing,
)

move-fails :
    (m : Memory) (p q r : FilePath) (file : ListFile)
    → (move m p q file).0 ≡ false
    → (move m p q file).1.read r ≡ m.read r
move-fails m p q r missing e = refl
move-fails m p q r unreadable e = refl
move-fails m p q r (holds bytes) e = cc

move-same :
    (m : Memory) (p q r : FilePath) (file : ListFile)
    → r ≢ p
    → r ≢ q
    → (move m p q file).1.read r ≡ m.read r
move-same m p q r missing h k = refl
move-same m p q r unreadable h k = refl
move-same m p q r (holds bytes) h k =
    update-other (update m.read p missing) q r (holds bytes) k ∙ update-other m.read p r missing h

move-target :
    (m : Memory) (fd : ℕ) (p q r : FilePath) (file : ListFile)
    → m.target fd ≡ p
    → p ≢ q
    → (move m q r file).1.target fd ≡ p
move-target m fd p q r missing at h = at
move-target m fd p q r unreadable at h = at
move-target m fd p q r (holds bytes) at h = rw (at, same-false p q h)

pub lawful_memory : IsLawful memory
lawful_memory = record {
  At = λ m fd p. m.target fd ≡ p;
  open-exists = λ m p. open_new-exists m p (m.read p);
  open-same = λ m p q h. open_new-same m p q (m.read p) h;
  open-new = λ m p fd e. open_new-new m p fd (m.read p) e;
  write-at = λ m fd p old new at file written.
      rw (at, take_all (length new) new (omega arith))
        (update-same m.read p (append (m.read p) new) ∙ ap (λ f. append f new) file);
  write-same = λ m fd p q new at h. rw at (update-other m.read p q _ h);
  close-same = λ m fd q. refl;
  rename-to = λ m p q h e. move-to m p q (m.read p) refl h e;
  rename-fails = λ m p q r e. move-fails m p q r (m.read p) e;
  rename-same = λ m p q r h k. move-same m p q r (m.read p) h k;
  unlink-removes = λ m p. update-same m.read p missing;
  unlink-same = λ m p q h. update-other m.read p q missing h;
  rand-same = λ m q. refl;
  At-rand = λ m fd p at. at;
  At-rename = λ m fd p q r at h k. move-target m fd p q r (m.read q) at h;
  time-same = λ m q. refl;
  sleep-same = λ m n q. refl;
}

pub target-At : (m : Memory) (fd : ℕ) (p : FilePath) → m.target fd ≡ p → lawful_memory.At m fd p
unfolding lawful_memory
target-At m fd p at = at
