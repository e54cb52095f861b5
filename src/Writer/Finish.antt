-- ===== src/Writer/Finish.antt =====
-- reftable_writer_close: what stands in the file at the end.
use reftable.Base.{ℕ, ◌≡◌, List, ◌++◌, Bool, true, false, Result, ok, Ensures, none, ◌>>=◌, ◌==◌}
use reftable.Block.Writer.{ZResult}
use reftable.Writer.{Writer}
use reftable.Writer.Output.{writer_write_header}
use reftable.Writer.Section.{writer_finish_public_section}
use reftable.Writer.Close.{footer}
use reftable.Writer.Offsets.{Tracks}

module _ {W : Type 0} (write : W → List ℕ → Result W) (content : W → List ℕ)
    (appends : (s : W) (bytes : List ℕ)
      → Ensures (λ s'. content s' ≡ content s ++ bytes) (write s bytes)) where
  -- Without padding that is due, only the bytes are written.
  Written : Writer W → List ℕ → Writer W → Type 0
  Written w bytes w' =
      (sink' : W) × (w' ≡ record w { sink = sink'; pending_padding = 0 })
      × (content sink' ≡ content w.sink ++ bytes)

  module _ (compress2 : ℕ → List ℕ → ZResult) (first_cap : ℕ → ℕ) (crc32 : ℕ → List ℕ → ℕ) where
    -- What the close has written behind the sections.
    abbrev pub ending : Bool → Writer W → List ℕ
    ending true done = writer_write_header done ++ footer crc32 done
    ending false done = footer crc32 done

    -- `done` is the writer at the end of the last section of `w`.
    abbrev pub Closed : ℕ → Writer W → Writer W × Bool → Type 0
    Closed fuel w r =
        (done : Writer W) × (writer_finish_public_section write compress2 first_cap fuel w
          ≡ ok done)
        × (done.block_writer ≡ none)
        × (content r.0.sink ≡ content done.sink ++ ending r.1 done)
        × (r.1 ≡ (done.next == 0))
        × Tracks write content appends done
