-- ===== src/Stack/Begin.antt =====
-- What reftable_stack_new_addition of c/stack.c gives its caller.
use reftable.Base.{
  ℕ, ◌≡◌, refl, subst, List, [], ◌++◌, Bool, true, false, Option, none, some, Result, ok, err,
  fault,
}
use reftable.Generic.{Table}
use reftable.Stack.UpToDate.{holds}
use reftable.Stack.Os.{Os, IsLawful, Opened, opened, exists, failed}
use reftable.Stack.Types.{OpenReader, World}
use reftable.Stack.Text.{dot_lock}
use reftable.Stack.Reload.{uptodate}
use reftable.Stack.Commit.{IsHolding}
use reftable.Stack.Addition.{
  Addition, reftable_stack_next_update_index, init_held, init_opened, give_addition,
  reftable_stack_init_addition, reftable_stack_new_addition,
}

module _ (os : Os) (law : IsLawful os) (crc32 : ℕ → List ℕ → ℕ) {S : Type 0}
    (table_from_reader : OpenReader → Table S) (rand_max rounds : ℕ) where
  -- An addition that is given holds the lock, on a stack that is up to date, and has no tables yet.
  abbrev Given : Option Addition × (Result Bool × World os S) → Type 0
  Given (none, (r, w)) = Unit {0}
  Given (some add, (r, w)) =
      IsHolding os law w add
      × (add.new_tables ≡ [])
      × (uptodate os w ≡ ok false)
      × (reftable_stack_next_update_index w.stack ≡ ok add.next_update_index)

  init_held-Given :
      (answer : Result Bool) (next : Result ℕ) (add : Addition) (w : World os S)
      → uptodate os w ≡ answer
      → reftable_stack_next_update_index w.stack ≡ next
      → IsHolding os law w add
      → add.new_tables ≡ []
      → Given (
          give_addition os crc32 table_from_reader rand_max rounds
            (init_held os crc32 table_from_reader rand_max rounds answer next add w))
  unfolding init_held give_addition
  init_held-Given (fault cause) next add w u n h e = tt
  init_held-Given (err code) next add w u n h e = tt
  init_held-Given (ok is_changed) (fault cause) add w u n h e = tt
  init_held-Given (ok is_changed) (err code) add w u n h e = tt
  init_held-Given (ok true) (ok next) add w u n h e = tt
  init_held-Given (ok false) (ok next) add w u n h e =
      (record { name = h.name; at = h.at; fresh = h.fresh }, e, u, n)

  init_opened-Given :
      (lock : Opened) (add : Addition) (w : World os S)
      → add.lock_file_name ≡ w.stack.list_file ++ dot_lock
      → add.new_tables ≡ []
      → ((fd : ℕ)
          → lock ≡ opened fd
          → (os.read w.files (w.stack.list_file ++ dot_lock) ≡ holds [])
            × law.At w.files fd (w.stack.list_file ++ dot_lock))
      → Given (
          give_addition os crc32 table_from_reader rand_max rounds
            (init_opened os crc32 table_from_reader rand_max rounds lock add w))
  unfolding init_opened give_addition
  init_opened-Given exists add w name e h = tt
  init_opened-Given failed add w name e h = tt
  init_opened-Given (opened fd) add w name e h =
      init_held-Given (uptodate os w) (reftable_stack_next_update_index w.stack)
        (record add { lock_file_fd = fd }) w refl refl
        (record { name = name; at = (h fd refl).1; fresh = (h fd refl).0 }) e

  -- Where reftable_stack_new_addition gives an addition, that has the lock of the list, as an empty file under its
  -- descriptor, and no new tables; the stack is up to date, and the next update index is that of the stack.
  pub reftable_stack_new_addition-holds :
      (w w' : World os S) (add : Addition) (answer : Result Bool)
      → reftable_stack_new_addition os crc32 table_from_reader rand_max rounds w
        ≡ (some add, (answer, w'))
      → IsHolding os law w' add
        × (add.new_tables ≡ [])
        × (uptodate os w' ≡ ok false)
        × (reftable_stack_next_update_index w'.stack ≡ ok add.next_update_index)
  unfolding reftable_stack_new_addition reftable_stack_init_addition
  reftable_stack_new_addition-holds w w' add answer e =
      let lock = w.stack.list_file ++ dot_lock in
      subst Given e (
        init_opened-Given (os.open_excl w.files lock).0 _ _ refl refl
          (λ fd o. law.open-new w.files lock fd o))
