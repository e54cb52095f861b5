-- ===== src/Stack/Overwrites.antt =====
-- What stack_compact_range of c/stack.c makes of the list of tables, once it has the lock again.
use reftable.Base.{
  ℕ, zero, suc, ◌≡◌, ◌≢◌, refl, ◌∙◌, List, [], ◌∷◌, ◌++◌, Bool-cases, inl, inr, All, take, drop,
}
use reftable.Basics.Bytes.{strcmp, is_eq}
use reftable.Stack.Os.{Os, IsLawful, FilePath}
use reftable.Stack.Types.{OpenReader, stack_filename}
use reftable.Stack.Release.{close_open-same}
use reftable.Stack.Locks.{Held, unlink_all, release, delete_others, paths_of}

module _ (os : Os) (law : IsLawful os) (q : FilePath) where
  unlink_all-same :
      (s : os.State) (paths : List FilePath)
      → All (λ p. q ≢ p) paths
      → os.read (unlink_all os s paths) q ≡ os.read s q
  unfolding unlink_all
  unlink_all-same s [] h = refl
  unlink_all-same s (p ∷ paths) (other, h) =
      unlink_all-same (os.unlink s p).1 paths h ∙ law.unlink-same s p q other

  pub release-same :
      (lock : FilePath) (held : Held) (s : os.State)
      → All (λ p. q ≢ p) held.subtable_locks
      → q ≢ lock
      → os.read (release os lock held s) q ≡ os.read s q
  unfolding release
  release-same lock held s locks other =
      let rest =
        close_open-same os law (unlink_all os s held.subtable_locks) held.lock_file_fd q
        ∙ unlink_all-same s held.subtable_locks locks in
      elim (Bool-cases held.have_lock) [
        | inl have ↦ rw have (law.unlink-same _ lock q other ∙ rest)
        | inr free ↦ rw free rest
      ]

  pub delete_others-same :
      (s : os.State) (paths : List FilePath) (kept : FilePath)
      → All (λ p. q ≢ p) paths
      → os.read (delete_others os s paths kept) q ≡ os.read s q
  unfolding delete_others
  delete_others-same s [] kept h = refl
  delete_others-same s (p ∷ paths) kept (other, h) = elim (Bool-cases (is_eq (strcmp p kept))) [
    | inl new ↦ rw (delete_others, new) (delete_others-same s paths kept h)
    | inr old ↦
        rw (delete_others, old)
          (delete_others-same (os.unlink s p).1 paths kept h ∙ law.unlink-same s p q other)
  ]

pub All-take : {A : Type 0} (P : A → Type 0) (n : ℕ) (xs : List A) → All P xs → All P (take n xs)
All-take P zero xs h = tt
All-take P (suc n) [] h = tt
All-take P (suc n) (x ∷ xs) (p, h) = (p, All-take P n xs h)

pub All-drop : {A : Type 0} (P : A → Type 0) (n : ℕ) (xs : List A) → All P xs → All P (drop n xs)
All-drop P zero xs h = h
All-drop P (suc n) [] h = tt
All-drop P (suc n) (x ∷ xs) (p, h) = All-drop P n xs h

pub paths_of-All :
    (P : FilePath → Type 0) (dir : FilePath) (readers : List OpenReader)
    → All (λ rd. P (stack_filename dir rd.name)) readers
    → All P (paths_of dir readers)
unfolding paths_of
paths_of-All P dir [] h = tt
paths_of-All P dir (rd ∷ readers) (p, h) = (p, paths_of-All P dir readers h)

-- The last byte.
unfoldable pub last_of : List ℕ → ℕ
last_of [] = 0
last_of (c ∷ []) = c
last_of (c ∷ d ∷ cs) = last_of (d ∷ cs)

pub last_of-append : (a : List ℕ) (c : ℕ) (b : List ℕ) → last_of (a ++ (c ∷ b)) ≡ last_of (c ∷ b)
unfolding last_of
last_of-append [] c b = refl
last_of-append (x ∷ []) c b = refl
last_of-append (x ∷ y ∷ a) c b = last_of-append (y ∷ a) c b
