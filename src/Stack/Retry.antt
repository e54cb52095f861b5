-- ===== src/Stack/Retry.antt =====
-- How a stack of c/stack.c reads its list of tables again and again: reftable_stack_reload_maybe_reuse,
-- reftable_stack_reload and reftable_new_stack.
use reftable.Base.{
  ℕ, zero, suc, ◌+◌, ◌*◌, ◌/◌, List, Bool, true, ltb, ◌&&◌, if◌then◌else◌, none, some, Result, ok,
  err, fault, general, not_exist_error, out_of_fuel,
}
use reftable.Basics.Names.{Name, names_equal}
use reftable.Generic.{Table}
use reftable.Writer.{WriteOptions}
use reftable.Stack.UpToDate.{read_lines}
use reftable.Stack.Os.{Os, FilePath}
use reftable.Stack.Types.{OpenReader, Stack, World, and_then}
use reftable.Stack.Reload.{
  is_past, fresh_stack, uptodate, reftable_stack_destroy, reftable_stack_reload_once,
}

module _ (crc32 : ℕ → List ℕ → ℕ) (os : Os) {S : Type 0}
    (table_from_reader : OpenReader → Table S) where
  -- How a round ends after the reload: with NOT_EXIST_ERROR and another list the loop goes on, after a delay.
  unfoldable pub after_reload :
      ℕ
      → List Name
      → (ℕ → World os S → Bool → Result (Unit {0}) × World os S)
      → ℕ
      → Result (Unit {0}) × World os S
      → Bool
      → Result (Unit {0}) × World os S
  after_reload rand_max names again delay (err not_exist_error, w2) reuse_open =
      and_then (read_lines (os.read w2.files w2.stack.list_file), w2)
        (λ names_after w2.
          if names_equal names_after names
          then (err not_exist_error, w2)
          else let (random, s3) = os.rand w2.files in
            let delay' = delay + delay * random / rand_max + 1 in
            again delay' (record w2 { files = os.sleep_millisec s3 delay' }) reuse_open)
  after_reload rand_max names again delay reloaded reuse_open = reloaded

  -- The `while (1)`. `tries` is what it is before the round, and a round may do nothing but wait, so the
  -- loop ends when the clock passes the deadline. The delay is `delay + delay * rand() / RAND_MAX + 1`, where
  -- RAND_MAX is the C library's. After the deadline C answers 0.
  unfoldable pub reload_loop :
      ℕ → ℕ → ℕ × ℕ → ℕ → ℕ → World os S → Bool → Result (Unit {0}) × World os S
  unfolding reftable_stack_reload_once after_reload
  reload_loop rand_max zero deadline tries delay w reuse_open = (fault out_of_fuel, w)
  reload_loop rand_max (suc rounds) deadline tries delay w reuse_open =
      let (clock, s1) = os.gettimeofday w.files in
      let w1 = record w { files = s1 } in
      elim clock [
        | none ↦ (err general, w1)
        | some now ↦
            if ltb 2 tries && is_past now deadline
            then (ok tt, w1)
            else (and_then (read_lines (os.read s1 w.stack.list_file), w1)
                (λ names w1.
                  after_reload rand_max names (reload_loop rand_max rounds deadline (tries + 1))
                    delay
                    (reftable_stack_reload_once crc32 os table_from_reader w1 names reuse_open)
                    reuse_open))
      ]

  unfoldable pub reftable_stack_reload_maybe_reuse :
      ℕ → ℕ → World os S → Bool → Result (Unit {0}) × World os S
  unfolding reload_loop
  reftable_stack_reload_maybe_reuse rand_max rounds w reuse_open =
      let (clock, s1) = os.gettimeofday w.files in
      let w1 = record w { files = s1 } in
      elim clock [
        | none ↦ (err general, w1)
        | some (sec, usec) ↦ reload_loop rand_max rounds (sec + 3, usec) 0 0 w1 reuse_open
      ]

  unfoldable pub reftable_stack_reload : ℕ → ℕ → World os S → Result (Unit {0}) × World os S
  unfolding reftable_stack_reload_maybe_reuse uptodate
  reftable_stack_reload rand_max rounds w =
      and_then (uptodate os w, w)
        (λ is_changed w.
          if is_changed
          then reftable_stack_reload_maybe_reuse rand_max rounds w true
          else (ok tt, w))

  -- The stack that the caller gets, and the files. On an error the new stack is destroyed.
  unfoldable pub reftable_new_stack :
      ℕ → ℕ → os.State → FilePath → WriteOptions → Result (Stack S) × os.State
  unfolding reftable_stack_reload_maybe_reuse fresh_stack reftable_stack_destroy
  reftable_new_stack rand_max rounds s dir config =
      let p : World os S = record { files = s; stack = fresh_stack dir config } in
      let (loaded, w) = reftable_stack_reload_maybe_reuse rand_max rounds p true in
      elim loaded [
        | ok done ↦ (ok w.stack, w.files)
        | fault cause ↦ (fault cause, w.files)
        | err code ↦ elim (reftable_stack_destroy os w) [
          | ok s' ↦ (err code, s')
          | err other ↦ (err other, w.files)
          | fault cause ↦ (fault cause, w.files)
        ]
      ]
