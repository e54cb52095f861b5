-- ===== src/Writer/Calls.antt =====
-- A client's calls of the writer, one after the other.
use reftable.Base.{
  ℕ, ◌+◌, ◌-◌, ◌^◌, ◌≡◌, List, [], ◌∷◌, Option, none, some, Result, ok, Ensures, Ensures->>=,
  Ensures-ok, Ensures-err, Ensures-fault, Ensures_any, ◌==◌, ◌||◌, ltb, if◌then◌else◌, length, ◌++◌,
  arith, ◌>>=◌,
}
use reftable.Record.Types.{RefRecord, LogRecord, ref, log}
use reftable.Record.Ref.{ref_record_val1, ref_record_val2}
use reftable.Record.Any.{block_type_ref}
use reftable.Generic.{hash_size}
use reftable.Block.Writer.{BlockWriter, ZResult, block_writer_type}
use reftable.Writer.{
  Writer, WriteOptions, options_set_defaults, reftable_new_writer, reftable_writer_set_limits,
}
use reftable.Writer.Section.{writer_finish_public_section}
use reftable.Writer.Add.{
  index_value, writer_index_hash, reftable_writer_add_ref, reftable_writer_add_log_verbatim,
  reftable_writer_add_log, clean_message,
}
use reftable.Writer.Offsets.{Tracks, if-Ensures, reinit-Tracks}
use reftable.Writer.Run.{add_record-Tracks, writer_finish_public_section-Tracks}

pub data Call : Type 0 where
  set_limits : ℕ → ℕ → Call
  add_ref : RefRecord → Call
  add_log : LogRecord → Call

module _ {W : Type 0} (write : W → List ℕ → Result W) (compress2 : ℕ → List ℕ → ZResult)
    (first_cap : ℕ → ℕ) where
  unfoldable pub run_call : ℕ → Call → Writer W → Result (Writer W)
  run_call fuel (set_limits min max) w = ok (reftable_writer_set_limits w min max)
  run_call fuel (add_ref r) w = reftable_writer_add_ref write compress2 first_cap w r
  run_call fuel (add_log l) w = reftable_writer_add_log write compress2 first_cap fuel w l

  unfoldable pub run_calls : ℕ → List Call → Writer W → Result (Writer W)
  unfolding run_call
  run_calls fuel [] w = ok w
  run_calls fuel (c ∷ calls) w = do w' ← run_call fuel c w; run_calls fuel calls w'

  module _ (content : W → List ℕ)
      (appends : (s : W) (bytes : List ℕ)
        → Ensures (λ s'. content s' ≡ content s ++ bytes) (write s bytes)) where
    abbrev Placed : Writer W → Type 0
    Placed = Tracks write content appends

    index_value-Tracks :
        (w : Writer W) (value : Option (List ℕ)) → Placed w → Ensures Placed (index_value w value)
    unfolding index_value writer_index_hash
    index_value-Tracks w none t = Ensures-ok t
    index_value-Tracks w (some value) t = if-Ensures w.opts.skip_index_objects (Ensures-ok t) (
        Ensures->>= (Ensures_any (hash_size w.opts.hash_id)) (λ size _.
          if-Ensures (ltb (length value) size) Ensures-fault (Ensures-ok (ground (arith, t)))))

    add_ref-Tracks :
        (w : Writer W) (r : RefRecord)
        → Placed w
        → Ensures Placed (reftable_writer_add_ref write compress2 first_cap w r)
    unfolding reftable_writer_add_ref
    add_ref-Tracks w r t =
        if-Ensures (ltb r.update_index w.min_update_index || ltb w.max_update_index r.update_index)
          Ensures-err
          (Ensures->>=
            (add_record-Tracks write content appends compress2 first_cap w
              (ref (record r { update_index = r.update_index - w.min_update_index })) t)
            (λ w1 t1.
              Ensures->>= (index_value-Tracks w1 (ref_record_val1 r) t1)
                (λ w2 t2. index_value-Tracks w2 (ref_record_val2 r) t2)))

    verbatim-Tracks :
        (fuel : ℕ) (w : Writer W) (l : LogRecord)
        → Placed w
        → Ensures Placed (reftable_writer_add_log_verbatim write compress2 first_cap fuel w l)
    unfolding reftable_writer_add_log_verbatim
    verbatim-Tracks fuel w l t = Ensures->>= (closed w.block_writer) (λ w1 t1.
        add_record-Tracks write content appends compress2 first_cap
          (record w1 { next = w1.next - w1.pending_padding; pending_padding = 0 }) (log l)
          (omega (arith, t1)))
      where
        closed :
            (o : Option BlockWriter)
            → Ensures Placed (elim o [
              | none ↦ ok w
              | some bw ↦
                  if block_writer_type bw == block_type_ref
                  then writer_finish_public_section write compress2 first_cap fuel w
                  else ok w
            ])
        closed none = Ensures-ok t
        closed (some bw) =
            if-Ensures (block_writer_type bw == block_type_ref)
              (writer_finish_public_section-Tracks write content appends compress2 first_cap fuel w
                t)
              (Ensures-ok t)

    run_call-Tracks :
        (fuel : ℕ) (c : Call) (w : Writer W) → Placed w → Ensures Placed (run_call fuel c w)
    unfolding run_call reftable_writer_set_limits reftable_writer_add_log
    run_call-Tracks fuel (set_limits min max) w t = Ensures-ok t
    run_call-Tracks fuel (add_ref r) w t = add_ref-Tracks w r t
    run_call-Tracks fuel (add_log l) w t =
        if-Ensures (l.value_type == 0) (verbatim-Tracks fuel w l t) (
          Ensures->>= (Ensures_any (clean_message w.opts.exact_log_message l.update))
            (λ u _. verbatim-Tracks fuel w (record l { update = u }) t))

    run_calls-Tracks :
        (fuel : ℕ) (calls : List Call) (w : Writer W)
        → Placed w
        → Ensures Placed (run_calls fuel calls w)
    unfolding run_calls
    run_calls-Tracks fuel [] w t = Ensures-ok t
    run_calls-Tracks fuel (c ∷ calls) w t =
        Ensures->>= (run_call-Tracks fuel c w t) (λ w' t'. run_calls-Tracks fuel calls w' t')

    new_writer-Tracks :
        (arg : W) (given : WriteOptions)
        → content arg ≡ []
        → Ensures Placed (reftable_new_writer arg given)
    unfolding reftable_new_writer
    new_writer-Tracks arg given empty =
        if-Ensures (ltb (options_set_defaults given).block_size (2 ^ 24))
          (reinit-Tracks write content appends _ block_type_ref (rw empty (omega arith)))
          Ensures-fault

    -- A writer that is made over an empty file and called any number of times without an error has written, with
    -- the padding that is due, as many bytes as its offset of the next block says.
    pub run_calls-offsets :
        (fuel : ℕ) (arg : W) (given : WriteOptions) (calls : List Call) (w0 w : Writer W)
        → content arg ≡ []
        → reftable_new_writer arg given ≡ ok w0
        → run_calls fuel calls w0 ≡ ok w
        → length (content w.sink) + w.pending_padding ≡ w.next
    run_calls-offsets fuel arg given calls w0 w empty made run =
        (run_calls-Tracks fuel calls w0 ((new_writer-Tracks arg given empty).value w0 made)).value w
          run
