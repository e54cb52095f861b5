-- ===== src/Block/Iterate.antt =====
-- Iterating over the entries of a block.
use mathlib.Core.List.{append_assoc}
use reftable.Base.{
  ℕ, zero, suc, ◌+◌, ◌-◌, ◌%◌, ◌^◌, ◌≤◌, ◌<◌, ◌≡◌, refl, sym, ◌∙◌, List, [], ◌∷◌, ◌++◌, Result, ok,
  fault, out_of_fuel, ◌>>=◌, length, length-append, false, leb, le→leb, ◌==◌, drop, drop-append,
  arith, Bool-cases, inl, inr, All, some, none,
}
use reftable.Record.Types.{Record, ref, obj, log, index}
use reftable.Record.View.{consume-append, consumed_lem}
use reftable.Record.Codec.{Reads}
use reftable.Record.Key.{decode_key, key_bytes, key-Reads, key-Reads_restart, key_bytes_pos}
use reftable.Record.Any.{record_key, record_val_type, record_type}
use reftable.Record.Any.RoundTrip.{
  IsRecord, record_bytes, stored, record-Reads, record_val_type-lt, record_key_small,
}
use reftable.Block.Writer.{previous}
use reftable.Block.Body.{body}
use reftable.Block.Reader.{BlockReader, BlockIter, sub32, block_iter_next}

-- From the offset on, the block holds `bytes`, and its entries end behind them.
pub record Spans (br : BlockReader) (off : ℕ) (bytes : List ℕ) : Type 0 where
  pub rest : List ℕ
  pub memory : drop off br.bytes ≡ bytes ++ rest
  pub ends : off + length bytes ≡ br.block_len
  pub small : br.block_len < 2 ^ 31

key-Reads-previous :
    (interval i : ℕ) (last key : List ℕ) (extra : ℕ)
    → length key < 2 ^ 32
    → extra < 8
    → Reads
        (decode_key last)
        (key_bytes (previous interval i last) key extra)
        (record { key = key; extra = extra })
key-Reads-previous interval i last key extra small three len rest fits bound =
    elim (Bool-cases (i % interval == 0)) [
      | inl restart ↦
          rw restart
            (key-Reads_restart last key extra small three len rest (rw restart at fits) bound)
      | inr chained ↦
          rw chained (key-Reads last key extra small three len rest (rw chained at fits) bound)
    ]

drop-drop {ℓ} : {A : Type ℓ} (m n k : ℕ) (xs : List A) → m + n ≡ k → drop n (drop m xs) ≡ drop k xs
drop-drop zero n k xs e = let e' : n ≡ k = omega arith in rw e'
drop-drop (suc m) zero zero [] e = absurd (omega arith)
drop-drop (suc m) zero (suc k) [] e = refl
drop-drop (suc m) (suc n) zero [] e = absurd (omega arith)
drop-drop (suc m) (suc n) (suc k) [] e = refl
drop-drop (suc m) n zero (x ∷ xs) e = absurd (omega arith)
drop-drop (suc m) n (suc k) (x ∷ xs) e = drop-drop m n k xs (omega arith)

pub Spans-rest :
    (br : BlockReader) (off : ℕ) (a b : List ℕ)
    → Spans br off (a ++ b)
    → Spans br (off + length a) b
Spans-rest br off a b s = record {
  rest = s.rest;
  memory =
      sym (drop-drop off (length a) _ br.bytes refl)
      ∙ (rw (s.memory, append_assoc a b s.rest) (drop-append (length a) a (b ++ s.rest) refl));
  ends = omega (arith, s.ends, length-append a b);
  small = s.small;
}

module _ (br : BlockReader) (it : BlockIter) (rec r : Record) (interval i : ℕ) (more : List ℕ)
    (sound : IsRecord br.hash_size r) (alike : record_type rec ≡ record_type r) where
  abbrev kb : List ℕ
  kb = key_bytes (previous interval i it.last_key) (record_key r) (record_val_type r)

  abbrev rb : List ℕ
  rb = record_bytes br.hash_size r

  -- block_iter_next reads the entry at its offset, and stops behind it.
  pub block_iter_next-entry :
      Spans br it.next_off ((kb ++ rb) ++ more)
      → block_iter_next br it rec
        ≡ ok (
            some (
              record { next_off = it.next_off + length (kb ++ rb); last_key = record_key r },
              stored br.hash_size rec r,
            ))
  unfolding block_iter_next
  block_iter_next-entry s =
      let n = length ((kb ++ rb) ++ more) in
      let l1 = length-append (kb ++ rb) more in
      let l2 = length-append kb rb in
      let size : sub32 br.block_len it.next_off ≡ n = omega (arith, s.ends, s.small) in
      let pos : leb br.block_len it.next_off ≡ false = ground (arith, s.ends, kb_pos) in
      rw (
        pos,
        size,
        s.memory,
        append_assoc (kb ++ rb) more s.rest,
        append_assoc kb rb (more ++ s.rest),
        key-Reads-previous interval i it.last_key (record_key r) (record_val_type r)
            (record_key_small br.hash_size r sound) (record_val_type-lt br.hash_size r) n
            (rb ++ (more ++ s.rest)) (omega arith) (omega (arith, s.ends, s.small)),
        consume-append kb (rb ++ (more ++ s.rest)) (length kb) n refl (omega arith)
            (omega (arith, s.ends, s.small)),
        record-Reads br.hash_size rec r sound alike (n - length kb) (more ++ s.rest) (omega arith)
            (omega (arith, s.ends, s.small)),
        consume-append rb (more ++ s.rest) (length rb) (n - length kb) refl (omega arith)
            (omega (arith, s.ends, s.small)),
        consumed_lem (kb ++ (rb ++ (more ++ s.rest))) (more ++ s.rest) (length (kb ++ rb)) n
            (n - length kb - length rb) (omega arith) (omega (arith, s.ends, s.small)),
        whole,
      )
    where
      kb_pos : 0 < length kb
      kb_pos =
          key_bytes_pos (previous interval i it.last_key) (record_key r) (record_val_type r)
            (record_key_small br.hash_size r sound)

      whole : (it.next_off + length (kb ++ rb)) % 2 ^ 32 ≡ it.next_off + length (kb ++ rb)
      whole = omega (arith, s.ends, s.small, length-append (kb ++ rb) more)

pub block_iter_next-end :
    (br : BlockReader) (it : BlockIter) (rec : Record)
    → br.block_len ≤ it.next_off
    → block_iter_next br it rec ≡ ok none
unfolding block_iter_next
block_iter_next-end br it rec h = rw (le→leb _ _ h)

-- What a caller reads that asks for records until the end, each over the one before.
unfoldable pub read_all : BlockReader → ℕ → BlockIter → Record → Result (List Record)
read_all br zero it rec = fault out_of_fuel
read_all br (suc fuel) it rec = do
  step ← block_iter_next br it rec
  elim step [ none ↦ ok [] | some (it', r) ↦ (do rs ← read_all br fuel it' r; ok (r ∷ rs)) ]

abbrev pub stored_all : ℕ → Record → List Record → List Record
stored_all hash_size old [] = []
stored_all hash_size old (r ∷ rs) =
    stored hash_size old r ∷ stored_all hash_size (stored hash_size old r) rs

stored-alike :
    (hash_size : ℕ) (old r : Record)
    → record_type old ≡ record_type r
    → record_type (stored hash_size old r) ≡ record_type r
unfolding record_type
stored-alike hash_size (log o) (log r) e = refl
stored-alike hash_size (ref o) r e = refl
stored-alike hash_size (obj o) r e = refl
stored-alike hash_size (index o) r e = refl
stored-alike hash_size (log o) r e = refl

pub read_all-body :
    (br : BlockReader) (interval typ fuel i : ℕ) (it : BlockIter) (rec : Record) (rs : List Record)
    → length rs < fuel
    → record_type rec ≡ typ
    → All (λ r. IsRecord br.hash_size r × (record_type r ≡ typ)) rs
    → Spans br it.next_off (body br.hash_size interval i it.last_key rs)
    → read_all br fuel it rec ≡ ok (stored_all br.hash_size rec rs)
unfolding read_all body
read_all-body br interval typ zero i it rec rs f t h s = absurd (omega arith)
read_all-body br interval typ (suc fuel) i it rec [] f t h s =
    rw (block_iter_next-end br it rec (omega (arith, s.ends)))
read_all-body br interval typ (suc fuel) i it rec (r ∷ rs) f t ((sound, own), h) s =
    let alike : record_type rec ≡ record_type r = t ∙ sym own in
    let entry =
      key_bytes (previous interval i it.last_key) (record_key r) (record_val_type r)
      ++ record_bytes br.hash_size r in
    let rest = body br.hash_size interval (i + 1) (record_key r) rs in
    let ih =
      read_all-body br interval typ fuel (i + 1)
        (record { next_off = it.next_off + length entry; last_key = record_key r })
        (stored br.hash_size rec r) rs (omega arith) (stored-alike br.hash_size rec r alike ∙ own) h
        (Spans-rest br it.next_off entry rest s) in
    rw (block_iter_next-entry br it rec r interval i rest sound alike s, ih)
