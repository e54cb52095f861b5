-- ===== src/Block/Writer.antt =====
-- struct block_writer of c/block.h, and its functions in c/block.c. The encoders write into the block
-- before block_writer_add knows that the entry fits; what a failed call leaves behind `next` is never
-- read, so the model writes an entry only when it is accepted.
use reftable.Base.{
  ℕ, zero, suc, ◌+◌, ◌-◌, ◌*◌, ◌%◌, ◌^◌, List, [], ◌∷◌, ◌++◌, Result, ok, err, fault, aborted,
  out_of_fuel, general, zlib_error, ◌>>=◌, length, Bool, ltb, ◌==◌, if◌then◌else◌, ◌&&◌, get_or,
  take, drop,
}
use reftable.Basics.BigEndian.{put_be24, put_be16}
use reftable.Record.Types.{Record}
use reftable.Record.Key.{encode_key, is_restart}
use reftable.Record.Any.{record_key, record_val_type, record_encode, block_type_log}
use reftable.Block.Buffer.{write_at}

-- c/constants.h
abbrev pub max_restarts : ℕ
max_restarts = 2 ^ 16 - 1

unfoldable pub header_size : ℕ → Result ℕ
header_size version = if version == 1 then ok 24 else if version == 2 then ok 28 else fault aborted

unfoldable pub footer_size : ℕ → Result ℕ
footer_size version = if version == 1 then ok 68 else if version == 2 then ok 72 else fault aborted

-- `restart_len` is the length of `restarts`; a bare uint32_t is a number.
pub record BlockWriter : Type 0 where
  pub buf : List ℕ
  pub block_size : ℕ
  pub header_off : ℕ
  pub restart_interval : ℕ
  pub hash_size : ℕ
  pub next : ℕ
  pub restarts : List ℕ
  pub last_key : List ℕ
  pub entries : ℕ

-- `w->block_size - w->next` in a uint32_t.
abbrev pub space : BlockWriter → ℕ
space w = (w.block_size + 2 ^ 32 - w.next) % 2 ^ 32

unfoldable pub block_writer_init : ℕ → List ℕ → ℕ → ℕ → ℕ → Result BlockWriter
block_writer_init typ buf block_size header_off hash_size = do
  buf' ← write_at buf header_off (typ ∷ [])
  ok (record {
    buf = buf';
    block_size = block_size;
    header_off = header_off;
    restart_interval = 16;
    hash_size = hash_size;
    next = header_off + 4;
    restarts = [];
    last_key = [];
    entries = 0;
  })

unfoldable pub block_writer_type : BlockWriter → ℕ
block_writer_type w = get_or w.buf w.header_off 0

-- The check and the bookkeeping for an entry of n bytes.
unfoldable pub block_writer_register_restart : BlockWriter → ℕ → Bool → List ℕ → Result BlockWriter
block_writer_register_restart w n restart key =
    let restart' = restart && ltb (length w.restarts) max_restarts in
    let rlen = if restart' then length w.restarts + 1 else length w.restarts in
    if ltb (space w) (2 + 3 * rlen + n)
    then err general
    else ok (record w {
      restarts = if restart' then w.restarts ++ (w.next ∷ []) else w.restarts;
      next = w.next + n;
      last_key = key;
      entries = w.entries + 1;
    })

-- The key before, as the encoder is given it: none at every restart_interval-th entry.
abbrev pub previous : ℕ → ℕ → List ℕ → List ℕ
previous interval entries last_key = if entries % interval == 0 then [] else last_key

-- Of a call that fails the bytes that its encoders have written behind w->next are not kept.
unfoldable pub block_writer_add : BlockWriter → Record → Result BlockWriter
block_writer_add w rec = do
  let last = previous w.restart_interval w.entries w.last_key
  let key = record_key rec
  key_bytes ← encode_key last key (record_val_type rec) (space w)
  rec_bytes ← record_encode w.hash_size rec (space w - length key_bytes)
  let entry = key_bytes ++ rec_bytes
  w' ← block_writer_register_restart w (length entry) (is_restart last key) key
  buf' ← write_at w.buf w.next entry
  ok (record w' { buf = buf' })

-- The restart offsets and their count, as they stand behind the entries.
unfoldable pub restart_bytes : List ℕ → List ℕ
restart_bytes [] = []
restart_bytes (r ∷ rs) = put_be24 r ++ restart_bytes rs

abbrev pub trailer : BlockWriter → List ℕ
trailer w = restart_bytes w.restarts ++ put_be16 (length w.restarts)

-- What compress2 of zlib answers: Z_OK with its output, Z_BUF_ERROR, or another error.
pub data ZResult : Type 0 where
  z_ok : List ℕ → ZResult
  z_buf_error z_other : ZResult

-- compress2 is zlib's: it is given the room for its output and the input. `first_cap` is the
-- `src_len * 1.001 + 12`, which C computes in floating point and cuts to an integer.
module _ (compress2 : ℕ → List ℕ → ZResult) (first_cap : ℕ → ℕ) where
  -- The `while (1)`: the room is doubled while the output does not fit it.
  pub compress_loop : ℕ → ℕ → List ℕ → Result (List ℕ)
  compress_loop zero dest_cap src = fault out_of_fuel
  compress_loop (suc fuel) dest_cap src = elim (compress2 dest_cap src) [
    | z_ok out ↦ ok out
    | z_buf_error ↦
        let again = compress_loop fuel (dest_cap * 2) src in
        if ltb dest_cap (2 ^ 63 - 1) then again else err zlib_error
    | z_other ↦ err zlib_error
  ]

  -- The loop that stores the restarts and the store of their count are one write.
  unfoldable pub block_writer_finish : BlockWriter → Result (BlockWriter × ℕ)
  unfolding compress_loop
  block_writer_finish w = do
    buf1 ← write_at w.buf w.next (trailer w)
    let end = w.next + length (trailer w)
    buf2 ← write_at buf1 (w.header_off + 1) (put_be24 end)
    if block_writer_type w == block_type_log
        then (do
          let skip = 4 + w.header_off
          let src = take (end - skip) (drop skip buf2)
          out ← compress_loop 64 (first_cap (length src)) src
          buf3 ← write_at buf2 skip out
          ok (record w { buf = buf3; next = length out + skip }, length out + skip))
        else ok (record w { buf = buf2; next = end }, end)
