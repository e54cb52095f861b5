-- ===== src/Writer/Checks.antt =====
-- The checks of reftable_writer_add_ref and of writer_add_record.
use Prim.Native.Nat.{Ordering}
use Prim.Native.Nat.Ordering.{lt, eq, gt}
use reftable.Base.{
  ℕ, ◌<◌, ◌≡◌, ◌≢◌, ◌⊎◌, refl, List, false, Result, err, api_error, ◌||◌, ltb, arith, Bool-cases,
  inl, inr,
}
use reftable.Basics.Bytes.{strcmp, strbuf_cmp-strcmp}
use reftable.Record.Types.{RefRecord}
use reftable.Record.Ref.{ref_record_key}
use reftable.Record.Any.{record_key}
use reftable.Block.Writer.{ZResult}
use reftable.Writer.{Writer}
use reftable.Writer.Add.{is_lt, writer_add_record, reftable_writer_add_ref}

module _ {W : Type 0} (write : W → List ℕ → Result W) (compress2 : ℕ → List ℕ → ZResult)
    (first_cap : ℕ → ℕ) (w : Writer W) where
  not_lt : (o : Ordering) → o ≢ lt → is_lt o ≡ false
  not_lt lt h = absurd (h refl)
  not_lt eq h = refl
  not_lt gt h = refl

  -- A ref whose update index is outside the limits, or whose name is not behind the last key, is refused with
  -- API_ERROR.
  pub reftable_writer_add_ref-refused :
      (r : RefRecord)
      → (r.update_index < w.min_update_index)
        ⊎ (w.max_update_index < r.update_index)
        ⊎ (strcmp w.last_key r.refname ≢ lt)
      → reftable_writer_add_ref write compress2 first_cap w r ≡ err api_error
  unfolding reftable_writer_add_ref writer_add_record record_key ref_record_key
  reftable_writer_add_ref-refused r (inl early) = ground arith
  reftable_writer_add_ref-refused r (inr (inl late)) = ground arith
  reftable_writer_add_ref-refused r (inr (inr order)) =
      let refused = not_lt (strcmp w.last_key r.refname) order in
      elim (Bool-cases
        (ltb r.update_index w.min_update_index || ltb w.max_update_index r.update_index)) [
          | inl outside ↦ rw outside
          | inr inside ↦ rw (inside, strbuf_cmp-strcmp w.last_key r.refname, refused)
        ]
