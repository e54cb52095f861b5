-- ===== src/Block/Body.antt =====
-- The bytes of a sequence of entries, and a writer that has taken them.
use mathlib.Core.List.{append_assoc, append-nil}
use reftable.Base.{
  ℕ, ◌+◌, ◌≡◌, refl, sym, ◌∙◌, List, [], ◌∷◌, ◌++◌, Result, ok, ◌>>=◌, >>=-eq-ok, length,
  length-append, take, arith, All, subst, ok-injective,
}
use reftable.Record.Types.{Record}
use reftable.Record.Key.{key_bytes}
use reftable.Record.Any.{record_key, record_val_type}
use reftable.Record.Any.RoundTrip.{IsRecord, record_bytes}
use reftable.Block.Writer.{BlockWriter, previous, block_writer_add}
use reftable.Block.Fill.{IsValid, entry, added, added-IsValid, take-added, block_writer_add-ok}

-- Entry number i on, where the key before is `last`.
unfoldable pub body : ℕ → ℕ → ℕ → List ℕ → List Record → List ℕ
body hash_size interval i last [] = []
body hash_size interval i last (r ∷ rs) =
    (key_bytes (previous interval i last) (record_key r) (record_val_type r)
      ++ record_bytes hash_size r)
    ++ body hash_size interval (i + 1) (record_key r) rs

-- block_writer_add for each record in turn.
unfoldable pub add_all : BlockWriter → List Record → Result BlockWriter
add_all w [] = ok w
add_all w (r ∷ rs) = do w' ← block_writer_add w r; add_all w' rs

-- What a run of successful calls has made of the writer.
pub record Holds (w w' : BlockWriter) (rs : List Record) : Type 0 where
  pub valid : IsValid w'
  pub front :
      take w'.next w'.buf
      ≡ take w.next w.buf ++ body w.hash_size w.restart_interval w.entries w.last_key rs
  pub next : w'.next ≡ w.next + length (body w.hash_size w.restart_interval w.entries w.last_key rs)
  pub header : w'.header_off ≡ w.header_off
  pub sized : w'.block_size ≡ w.block_size
  pub counted : w'.entries ≡ w.entries + length rs

-- A run of block_writer_add over sound records, from a valid writer, that succeeds leaves a valid writer
-- whose block holds what it held before and then the entries in order.
pub add_all-Holds :
    (rs : List Record) (w w' : BlockWriter)
    → IsValid w
    → All (IsRecord w.hash_size) rs
    → add_all w rs ≡ ok w'
    → Holds w w' rs
unfolding add_all body
add_all-Holds [] w w' v h e =
    subst (λ x. Holds w x []) (ok-injective e)
      (record {
        valid = v;
        front = sym (append-nil _);
        next = omega arith;
        header = refl;
        sized = refl;
        counted = omega arith;
      })
add_all-Holds (r ∷ rs) w w' v (hr, hs) e =
    let (w1, e1, e2) = >>=-eq-ok (block_writer_add w r) (λ w'. add_all w' rs) e in
    let (same, enough) = block_writer_add-ok w r v hr w1 e1 in
    let ih = add_all-Holds rs (added w r) w' (added-IsValid w r v hr enough) hs (rw same at e2) in
    record {
      valid = ih.valid;
      front =
          ih.front
          ∙ (rw (take-added w r v hr enough) (append_assoc (take w.next w.buf) (entry w r) _));
      next = omega (
        arith,
        ih.next,
        length-append (entry w r)
            (body w.hash_size w.restart_interval (w.entries + 1) (record_key r) rs),
      );
      header = ih.header;
      sized = ih.sized;
      counted = omega (arith, ih.counted);
    }
