-- ===== src/Writer/Rounds.antt =====
-- The `while` of writer_finish_section.
use reftable.Base.{
  ℕ, zero, suc, ◌+◌, ◌<◌, ◌≡◌, refl, sym, List, [], true, false, Error, Fault, Result, ok, err,
  fault, ltb, length, arith, Bool-cases, inl, inr, ◌>>=◌,
}
use reftable.Record.Any.{block_type_index}
use reftable.Block.Writer.{ZResult}
use reftable.Writer.{Writer, writer_reinit_block_writer}
use reftable.Writer.Section.{level_loop, index_loop}
use reftable.Writer.Levels.{next_level, next_level-shorter}

>>=-assoc :
    {A B C : Type 0} (m : Result A) (f : A → Result B) (k : B → Result C)
    → ((m >>= f) >>= k) ≡ (m >>= (λ a. f a >>= k))
>>=-assoc (ok a) f k = refl
>>=-assoc (err code) f k = refl
>>=-assoc (fault cause) f k = refl

module _ {W : Type 0} (write : W → List ℕ → Result W) (compress2 : ℕ → List ℕ → ZResult)
    (first_cap : ℕ → ℕ) where
  -- The rounds of the `while`, without a bound on their number.
  pub data Rounds (threshold : ℕ) : ℕ → ℕ → Writer W → Result (Writer W × ℕ × ℕ) → Type 0 where
    stops :
        {max_level index_start : ℕ} {w : Writer W}
        → ltb threshold (length w.index) ≡ false
        → Rounds threshold max_level index_start w (ok (w, max_level, index_start))
    fails :
        {max_level index_start : ℕ} {w : Writer W} (code : Error)
        → ltb threshold (length w.index) ≡ true
        → next_level write compress2 first_cap w ≡ err code
        → Rounds threshold max_level index_start w (err code)
    faults :
        {max_level index_start : ℕ} {w : Writer W} (cause : Fault)
        → ltb threshold (length w.index) ≡ true
        → next_level write compress2 first_cap w ≡ fault cause
        → Rounds threshold max_level index_start w (fault cause)
    continues :
        {max_level index_start : ℕ} {w : Writer W} (w' : Writer W) {r : Result (Writer W × ℕ × ℕ)}
        → ltb threshold (length w.index) ≡ true
        → next_level write compress2 first_cap w ≡ ok w'
        → Rounds threshold (max_level + 1) w.next w' r
        → Rounds threshold max_level index_start w r

  -- On more fuel than there are entries in the index, the model of the while of writer_finish_section answers
  -- what its rounds come to, which are finitely many.
  pub index_loop-Rounds :
      (fuel threshold max_level index_start : ℕ) (w : Writer W)
      → length w.index < fuel
      → Rounds threshold max_level index_start w
          (index_loop write compress2 first_cap fuel threshold max_level index_start w)
  unfolding index_loop
  index_loop-Rounds zero threshold max_level index_start w f = absurd (omega arith)
  index_loop-Rounds (suc fuel) threshold max_level index_start w f =
      elim (Bool-cases (ltb threshold (length w.index))) [
        | inr done ↦ rw done (stops done)
        | inl more ↦
            rw
              (
                more,
                sym (
                    >>=-assoc (writer_reinit_block_writer w block_type_index)
                      (λ w1.
                        level_loop write compress2 first_cap w.index (record w1 { index = [] }))
                      (λ w2.
                        index_loop write compress2 first_cap fuel threshold (max_level + 1) w.next
                          w2)),
              )
              (round more
                (λ w2 shorter.
                  index_loop-Rounds fuel threshold (max_level + 1) w.next w2 (omega arith))
                (next_level write compress2 first_cap w) refl)
      ]
    where
      round :
          ltb threshold (length w.index) ≡ true
          → ((w2 : Writer W)
              → length w2.index < length w.index
              → Rounds threshold
                  (max_level + 1)
                  w.next
                  w2
                  (index_loop write compress2 first_cap fuel threshold (max_level + 1) w.next w2))
          → (r : Result (Writer W)) → next_level write compress2 first_cap w ≡ r
          → Rounds threshold max_level index_start w (
              r >>= (λ w2.
                index_loop write compress2 first_cap fuel threshold (max_level + 1) w.next w2))
      round more again (ok w2) e =
          let shorter =
            (next_level-shorter write compress2 first_cap w (ground arith)).value w2 e in
          continues w2 more e (again w2 shorter)
      round more again (err code) e = fails code more e
      round more again (fault cause) e = faults cause more e
