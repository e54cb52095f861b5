-- ===== src/Writer/Run.antt =====
-- The offsets through all the operations that write.
use reftable.Base.{
  ℕ, zero, suc, ◌+◌, ◌≡◌, List, [], ◌∷◌, ◌++◌, not, Option, none, some, Result, ok, err, fault,
  aborted, Ensures, Ensures->>=, Ensures-ok, Ensures-err, Ensures-fault, Ensures_any, ◌==◌, ◌&&◌,
  ltb, if◌then◌else◌, length, ◌>>=◌,
}
use reftable.Basics.Bytes.{strbuf_cmp}
use reftable.Record.Types.{Record, IndexRecord, index, obj}
use reftable.Record.Any.{record_key, record_type, block_type_ref, block_type_index, block_type_obj}
use reftable.Tree.Search.{Tree, leaf, node, infix_walk}
use reftable.Block.Writer.{BlockWriter, ZResult, block_writer_type, block_writer_add}
use reftable.Writer.{Writer, deref, writer_reftable_block_stats, writer_reinit_block_writer}
use reftable.Writer.Section.{
  level_loop, index_loop, writer_clear_index, writer_finish_section, write_object_record,
  writer_dump_object_index, writer_finish_public_section, node_at,
}
use reftable.Writer.Add.{is_lt, writer_add_record}
use reftable.Writer.Offsets.{
  Tracks, if-Ensures, writer_flush_block-Tracks, reinit-Tracks, add_or_flush-Tracks,
}

module _ {W : Type 0} (write : W → List ℕ → Result W) (content : W → List ℕ)
    (appends : (s : W) (bytes : List ℕ)
      → Ensures (λ s'. content s' ≡ content s ++ bytes) (write s bytes))
    (compress2 : ℕ → List ℕ → ZResult) (first_cap : ℕ → ℕ) where
  abbrev Placed : Writer W → Type 0
  Placed = Tracks write content appends

  level_loop-Tracks :
      (idxs : List IndexRecord) (w : Writer W)
      → Placed w
      → Ensures Placed (level_loop write compress2 first_cap idxs w)
  unfolding level_loop
  level_loop-Tracks [] w t = Ensures-ok t
  level_loop-Tracks (idx ∷ rest) w t =
      Ensures->>=
        (add_or_flush-Tracks write content appends compress2 first_cap w block_type_index
          (index idx) _ t (λ code w' fresh t'. Ensures-fault))
        (λ w' t'. level_loop-Tracks rest w' t')

  index_loop-Tracks :
      (fuel threshold max_level index_start : ℕ) (w : Writer W)
      → Placed w
      → Ensures
          (λ r. Placed r.0)
          (index_loop write compress2 first_cap fuel threshold max_level index_start w)
  unfolding index_loop
  index_loop-Tracks zero threshold max_level index_start w t = Ensures-fault
  index_loop-Tracks (suc fuel) threshold max_level index_start w t =
      if-Ensures (ltb threshold (length w.index))
        (Ensures->>= (reinit-Tracks write content appends w block_type_index t) (λ w1 t1.
          Ensures->>= (level_loop-Tracks w.index (record w1 { index = [] }) t1)
            (λ w2 t2. index_loop-Tracks fuel threshold (max_level + 1) w.next w2 t2)))
        (Ensures-ok t)

  finish_section-Tracks :
      (fuel : ℕ) (w : Writer W)
      → Placed w
      → Ensures Placed (writer_finish_section write compress2 first_cap fuel w)
  unfolding writer_finish_section writer_clear_index
  finish_section-Tracks fuel w t = Ensures->>= (Ensures_any (deref w.block_writer)) (λ bw _.
      Ensures->>= (writer_flush_block-Tracks write content appends compress2 first_cap w t)
        (λ flushed t1.
          Ensures->>= (index_loop-Tracks fuel (if w.opts.unpadded then 1 else 3) 0 0 flushed t1)
            (λ looped t2.
              Ensures->>=
                (writer_flush_block-Tracks write content appends compress2 first_cap
                  (writer_clear_index looped.0) t2)
                (λ w2 t3.
                  Ensures->>=
                    (Ensures_any (writer_reftable_block_stats w2.stats (block_writer_type bw)))
                    (λ bstats _. Ensures-ok t3)))))

  write_object_record-Tracks :
      (p : ℕ) (state : Result (Writer W))
      → Ensures Placed state
      → Ensures Placed (write_object_record write compress2 first_cap p state)
  unfolding write_object_record
  write_object_record-Tracks p state h = Ensures->>= h (λ w t.
      add_or_flush-Tracks write content appends compress2 first_cap w block_type_obj _ _ t
        (λ code w' fresh t'. shorter w' t' (
          block_writer_add fresh (
            obj (record {
              hash_prefix = (node_at w.obj_nodes p).hash;
              hash_prefix_len = w.stats.object_id_len;
              offsets = [];
            })))))
    where
      shorter :
          (w' : Writer W)
          → Placed w'
          → (r : Result BlockWriter)
          → Ensures Placed (elim r [
            | ok bw' ↦ ok (record w' { block_writer = some bw' })
            | err code' ↦ fault aborted
            | fault cause ↦ fault cause
          ])
      shorter w' t' (ok bw') = Ensures-ok t'
      shorter w' t' (err code) = Ensures-fault
      shorter w' t' (fault cause) = Ensures-fault

  walk-Tracks :
      (tree : Tree ℕ) (state : Result (Writer W))
      → Ensures Placed state
      → Ensures Placed (infix_walk (write_object_record write compress2 first_cap) tree state)
  unfolding infix_walk
  walk-Tracks leaf state h = h
  walk-Tracks (node k left right) state h =
      walk-Tracks right _ (write_object_record-Tracks k _ (walk-Tracks left state h))

  dump-Tracks :
      (fuel : ℕ) (w : Writer W)
      → Placed w
      → Ensures Placed (writer_dump_object_index write compress2 first_cap fuel w)
  unfolding writer_dump_object_index
  dump-Tracks fuel w t =
      Ensures->>= (reinit-Tracks write content appends _ block_type_obj t) (λ w' t1.
        Ensures->>= (walk-Tracks w'.obj_index_tree (ok w') (Ensures-ok t1))
          (λ written t2. finish_section-Tracks fuel written t2))

  -- After a section that ends without an error, the file and the padding that is due end where the next block
  -- is to start.
  pub writer_finish_public_section-Tracks :
      (fuel : ℕ) (w : Writer W)
      → Placed w
      → Ensures Placed (writer_finish_public_section write compress2 first_cap fuel w)
  unfolding writer_finish_public_section
  writer_finish_public_section-Tracks fuel w t = public w.block_writer
    where
      public :
          (o : Option BlockWriter)
          → Ensures Placed (elim o [
            | none ↦ ok w
            | some bw ↦ (do
              let typ = block_writer_type bw
              w1 ← writer_finish_section write compress2 first_cap fuel w
              w2 ←
                  (if typ == block_type_ref
                      && (not w1.opts.skip_index_objects && ltb 0 w1.stats.ref_stats.index_blocks)
                    then writer_dump_object_index write compress2 first_cap fuel w1
                    else ok w1)
              ok (record w2 { obj_index_tree = leaf; obj_nodes = []; block_writer = none }))
          ])
      public none = Ensures-ok t
      public (some bw) = Ensures->>= (finish_section-Tracks fuel w t) (λ w1 t1.
          Ensures->>=
            (if-Ensures
              (block_writer_type bw == block_type_ref
                && (not w1.opts.skip_index_objects && ltb 0 w1.stats.ref_stats.index_blocks))
              (dump-Tracks fuel w1 t1) (Ensures-ok t1))
            (λ w2 t2. Ensures-ok t2))

  pub add_record-Tracks :
      (w : Writer W) (rec : Record)
      → Placed w
      → Ensures Placed (writer_add_record write compress2 first_cap w rec)
  unfolding writer_add_record
  add_record-Tracks w rec t =
      if-Ensures (is_lt (strbuf_cmp w.last_key (record_key rec)))
        (Ensures->>= (opened w.block_writer) (λ w1 t1.
          Ensures->>= (Ensures_any (deref w1.block_writer)) (λ bw _.
            if-Ensures (block_writer_type bw == record_type rec)
              (add_or_flush-Tracks write content appends compress2 first_cap w1 (record_type rec)
                rec _ t1 (λ code w' fresh t'. Ensures-err))
              Ensures-fault)))
        Ensures-err
    where
      opened :
          (o : Option BlockWriter)
          → Ensures Placed (elim o [
            | none ↦
                writer_reinit_block_writer
                  (record w { last_key = record_key rec })
                  (record_type rec)
            | some bw ↦ ok (record w { last_key = record_key rec })
          ])
      opened none =
          reinit-Tracks write content appends (record w { last_key = record_key rec })
            (record_type rec) t
      opened (some bw) = Ensures-ok t
