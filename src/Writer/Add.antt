-- ===== src/Writer/Add.antt =====
-- Adding refs and log entries to the table: the checks, the clean-up of a message and the object ids.
use Prim.Native.Nat.{Ordering}
use Prim.Native.Nat.Ordering.{lt, eq, gt}
use reftable.Base.{
  ℕ, ◌-◌, List, [], ◌∷◌, ◌++◌, Bool, true, false, Option, none, some, Result, ok, err, fault,
  aborted, api_error, out_of_bounds, ◌==◌, ◌||◌, ◌&&◌, ltb, if◌then◌else◌, length, take, set, ◌>>=◌,
}
use reftable.Basics.Bytes.{strcmp, strbuf_cmp}
use reftable.Record.Types.{Record, RefRecord, LogRecord, LogUpdate, ref, log}
use reftable.Record.Ref.{ref_record_val1, ref_record_val2}
use reftable.Record.Log.Equal.{log_record_compare_key}
use reftable.Record.Any.{record_key, record_type, block_type_ref}
use reftable.Tree.Search.{tree_search}
use reftable.Generic.{hash_size}
use reftable.Block.Writer.{ZResult, block_writer_type}
use reftable.Writer.{Writer, ObjIndexTreeNode, deref, writer_reinit_block_writer}
use reftable.Writer.Section.{add_or_flush, node_at, writer_finish_public_section}

abbrev pub is_lt : Ordering → Bool
is_lt lt = true
is_lt eq = false
is_lt gt = false

-- obj_index_tree_node_compare of what two pointers point to.
unfoldable pub obj_index_tree_node_compare : List ObjIndexTreeNode → ℕ → ℕ → Ordering
obj_index_tree_node_compare nodes a b = strbuf_cmp (node_at nodes a).hash (node_at nodes b).hash

abbrev last_is : List ℕ → ℕ → Bool
last_is [] off = false
last_is (x ∷ []) off = x == off
last_is (x ∷ y ∷ xs) off = last_is (y ∷ xs) off

-- The end of writer_index_hash, at the node that p points to.
unfoldable pub push_offset : List ObjIndexTreeNode → ℕ → ℕ → List ObjIndexTreeNode
push_offset nodes p off =
    let key = node_at nodes p in
    if last_is key.offsets off
    then nodes
    else set nodes p (record key { offsets = key.offsets ++ (off ∷ []) })

-- `want` is behind the other nodes; a node that is not found takes its place in the tree.
unfoldable pub writer_index_hash : {W : Type 0} → Writer W → List ℕ → Writer W
writer_index_hash w hash =
    let p = length w.obj_nodes in
    let nodes = w.obj_nodes ++ (record { hash = hash; offsets = [] } ∷ []) in
    let compare = obj_index_tree_node_compare nodes in
    elim ((tree_search compare p w.obj_index_tree false).0) [
      | some key ↦ record w { obj_nodes = push_offset w.obj_nodes key w.next }
      | none ↦ record w {
        obj_nodes = push_offset nodes p w.next;
        obj_index_tree = (tree_search compare p w.obj_index_tree true).1;
      }
    ]

-- strbuf_add(&h, value, hash_size): a value with fewer bytes is read past its end.
unfoldable pub index_value : {W : Type 0} → Writer W → Option (List ℕ) → Result (Writer W)
index_value w none = ok w
index_value w (some value) = if w.opts.skip_index_objects then ok w else (do
  size ← hash_size w.opts.hash_id
  if ltb (length value) size
      then fault out_of_bounds
      else ok (writer_index_hash w (take size value)))

-- The message without the newlines at its end.
unfoldable pub strip_newlines : List ℕ → List ℕ
strip_newlines [] = []
strip_newlines (x ∷ xs) =
    let rest = strip_newlines xs in if x == b'\n' && length rest == 0 then [] else x ∷ rest

abbrev pub has_newline : List ℕ → Bool
has_newline [] = false
has_newline (x ∷ xs) = x == b'\n' || has_newline xs

-- The update as it is stored.
unfoldable pub clean_message : Bool → LogUpdate → Result LogUpdate
clean_message exact u = elim u.message [
  | none ↦ ok u
  | some message ↦
      let cleaned = strip_newlines message in
      if exact
      then ok u
      else if has_newline cleaned
      then err api_error
      else ok (record u { message = some (cleaned ++ (b'\n' ∷ [])) })
]

module _ {W : Type 0} (write : W → List ℕ → Result W) (compress2 : ℕ → List ℕ → ZResult)
    (first_cap : ℕ → ℕ) where
  unfoldable pub writer_add_record : Writer W → Record → Result (Writer W)
  writer_add_record w rec =
      let key = record_key rec in
      let typ = record_type rec in
      let add = do
        w1 ← elim w.block_writer [
          | none ↦ writer_reinit_block_writer (record w { last_key = key }) typ
          | some bw ↦ ok (record w { last_key = key })
        ]
        bw ← deref w1.block_writer
        if block_writer_type bw == typ
            then add_or_flush write compress2 first_cap w1 typ rec (λ code w2 fresh. err code)
            else fault aborted
      in if is_lt (strbuf_cmp w.last_key key) then add else err api_error

  -- A refname is never NULL here.
  unfoldable pub reftable_writer_add_ref : Writer W → RefRecord → Result (Writer W)
  unfolding writer_add_record
  reftable_writer_add_ref w r =
      let add = do
        w1 ←
            writer_add_record w
              (ref (record r { update_index = r.update_index - w.min_update_index }))
        w2 ← index_value w1 (ref_record_val1 r)
        index_value w2 (ref_record_val2 r)
      in if ltb r.update_index w.min_update_index || ltb w.max_update_index r.update_index
        then err api_error
        else add

  unfoldable pub add_ref_loop : List RefRecord → Writer W → Result (Writer W)
  unfolding reftable_writer_add_ref
  add_ref_loop [] w = ok w
  add_ref_loop (r ∷ refs) w = do w' ← reftable_writer_add_ref w r; add_ref_loop refs w'

  -- `fuel` bounds the levels of an index.
  unfoldable pub reftable_writer_add_log_verbatim : ℕ → Writer W → LogRecord → Result (Writer W)
  unfolding writer_add_record
  reftable_writer_add_log_verbatim fuel w l = do
    w1 ← elim w.block_writer [
      | none ↦ ok w
      | some bw ↦
          if block_writer_type bw == block_type_ref
          then writer_finish_public_section write compress2 first_cap fuel w
          else ok w
    ]
    writer_add_record (record w1 { next = w1.next - w1.pending_padding; pending_padding = 0 })
        (log l)

  unfoldable pub reftable_writer_add_log : ℕ → Writer W → LogRecord → Result (Writer W)
  unfolding reftable_writer_add_log_verbatim
  reftable_writer_add_log fuel w l =
      if l.value_type == 0 then reftable_writer_add_log_verbatim fuel w l else (do
        u ← clean_message w.opts.exact_log_message l.update
        reftable_writer_add_log_verbatim fuel w (record l { update = u }))

  unfoldable pub add_log_loop : ℕ → List LogRecord → Writer W → Result (Writer W)
  unfolding reftable_writer_add_log
  add_log_loop fuel [] w = ok w
  add_log_loop fuel (l ∷ logs) w = do
    w' ← reftable_writer_add_log fuel w l
    add_log_loop fuel logs w'

  -- qsort is libc's.
  unfoldable pub reftable_writer_add_refs :
      ((RefRecord → RefRecord → Ordering) → List RefRecord → List RefRecord)
      → Writer W
      → List RefRecord
      → Result (Writer W)
  reftable_writer_add_refs qsort w refs =
      add_ref_loop (qsort (λ a b. strcmp a.refname b.refname) refs) w

  unfoldable pub reftable_writer_add_logs :
      ((LogRecord → LogRecord → Ordering) → List LogRecord → List LogRecord)
      → ℕ
      → Writer W
      → List LogRecord
      → Result (Writer W)
  reftable_writer_add_logs qsort fuel w logs =
      add_log_loop fuel (qsort log_record_compare_key logs) w
