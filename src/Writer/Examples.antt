-- ===== src/Writer/Examples.antt =====
-- Tests of the writer: a table with one ref, written to a list of bytes.
use reftable.Writer.Rounds.{Rounds, index_loop-Rounds}
use reftable.Writer.{
  reftable_writer_set_limits, writer_version, writer_reftable_block_stats, set_block_stats,
}
use reftable.Basics.Bytes.{strbuf_cmp, common_prefix_size}
use reftable.Record.Any.{record_key, record_val_type, record_encode}
use reftable.Record.Ref.{
  ref_record_key, ref_record_val_type, ref_record_encode, ref_record_val1, ref_record_val2,
}
use reftable.Writer.Section.{
  add_or_flush, writer_finish_public_section, writer_finish_section, writer_clear_index, index_loop,
}
use reftable.Writer.Output.{
  writer_flush_block, writer_flush_nonempty_block, padded_write, writer_write_header,
}
use reftable.Basics.BigEndian.{put_be16, put_be24, put_be32, put_be64}
use reftable.Record.Key.{encode_key, is_restart}
use reftable.Record.VarInt.{put_var_int}
use reftable.Record.Codec.{put_bytes}
use reftable.Record.View.{copy}
use reftable.Block.Writer.{block_writer_register_restart}
use reftable.Block.Buffer.{write_at}
use reftable.Writer.Add.{index_value}
use reftable.Writer.{options_set_defaults, writer_reinit_block_writer, writer_version}
use reftable.Block.Writer.{header_size, block_writer_init}
use reftable.Generic.{hash_size}
use reftable.Block.Buffer.{write_at}
use reftable.Base.{
  ℕ, ◌+◌, ◌≡◌, refl, List, [], ◌∷◌, ◌++◌, true, false, Result, ok, err, api_error, Ensures,
  Ensures-ok, length, arith, inl,
}
use reftable.Record.Types.{RefRecord, RefValue}
use reftable.Record.Any.{record_type}
use reftable.Block.Writer.{
  ZResult, z_other, block_writer_type, block_writer_add, block_writer_finish, restart_bytes,
}
use reftable.Writer.{Writer, WriteOptions, reftable_new_writer}
use reftable.Writer.Add.{reftable_writer_add_ref}
use reftable.Writer.Close.{reftable_writer_close, footer_fields, pack_obj}
use reftable.Writer.Calls.{Call, set_limits, add_ref, run_calls, run_calls-offsets}
use reftable.Writer.Checks.{reftable_writer_add_ref-refused}

abbrev write : List ℕ → List ℕ → Result (List ℕ)
write file bytes = ok (file ++ bytes)

abbrev content : List ℕ → List ℕ
content file = file

appends :
    (s : List ℕ) (bytes : List ℕ) → Ensures (λ s'. content s' ≡ content s ++ bytes) (write s bytes)
appends s bytes = Ensures-ok refl

abbrev no_compress2 : ℕ → List ℕ → ZResult
no_compress2 cap src = z_other

abbrev first_cap : ℕ → ℕ
first_cap n = n + 12

abbrev given : WriteOptions
given = record {
  unpadded = true;
  block_size = 48;
  skip_index_objects = true;
  restart_interval = 0;
  hash_id = 0;
  skip_name_check = false;
  exact_log_message = false;
}

abbrev gone : ℕ → RefRecord
gone n = record { refname = n ∷ []; update_index = 1; value = RefValue.deletion }

abbrev calls : List Call
calls = set_limits 1 2 ∷ add_ref (gone b'a') ∷ []

unfoldable made : (w0 : Writer (List ℕ)) × (reftable_new_writer [] given ≡ ok w0)
unfolding reftable_new_writer options_set_defaults writer_reinit_block_writer header_size
    writer_version hash_size block_writer_init write_at
made = (_, refl)

unfoldable ran :
    (w : Writer (List ℕ)) × (run_calls write no_compress2 first_cap 3 calls made.0 ≡ ok w)
unfolding run_calls reftable_writer_add_ref reftable_writer_set_limits strbuf_cmp made record_key
    ref_record_key block_writer_type record_type add_or_flush block_writer_add encode_key
    put_var_int common_prefix_size record_val_type ref_record_val_type put_bytes record_encode
    ref_record_encode block_writer_register_restart write_at is_restart copy index_value
    ref_record_val1 ref_record_val2
ran = (_, refl)

run_calls-offsets_example : length (content ran.0.sink) + ran.0.pending_padding ≡ ran.0.next
unfolding made ran
run_calls-offsets_example =
    run_calls-offsets write no_compress2 first_cap content appends 3 [] given calls made.0 ran.0
      refl made.1 ran.1

reftable_writer_add_ref-refused_example :
    reftable_writer_add_ref write no_compress2 first_cap
      (record made.0 { min_update_index = 2 })
      (gone b'a')
    ≡ err api_error
reftable_writer_add_ref-refused_example =
    reftable_writer_add_ref-refused write no_compress2 first_cap
      (record made.0 { min_update_index = 2 }) (gone b'a') (inl (omega arith))

-- The close of that table returns, and the table is not empty.
closed :
    (w : Writer (List ℕ)) × (reftable_writer_close write no_compress2 first_cap
        (λ start bytes. 7)
        3
        ran.0
      ≡ ok (w, false))
unfolding made ran reftable_writer_close writer_finish_public_section writer_finish_section
    writer_flush_block writer_flush_nonempty_block padded_write writer_write_header footer_fields
    block_writer_type block_writer_finish write_at put_be24 put_be32 put_be64 put_be16 restart_bytes
    writer_version writer_reftable_block_stats set_block_stats writer_clear_index index_loop
    pack_obj
closed = (_, refl)

abbrev two_blocks : Writer (List ℕ)
two_blocks = record made.0 {
  index =
      (record { offset = 0; last_key = b'a' ∷ [] })
      ∷ (record { offset = 48; last_key = b'b' ∷ [] })
      ∷ [];
}

index_loop-Rounds_example :
    Rounds write no_compress2 first_cap 1 0 0 two_blocks
      (index_loop write no_compress2 first_cap 3 1 0 0 two_blocks)
index_loop-Rounds_example =
    index_loop-Rounds write no_compress2 first_cap 3 1 0 0 two_blocks (omega arith)
