-- ===== src/Stack/Env.antt =====
-- What the functions of c/stack.c that write tables are given: crc32 and compress2 of zlib, the first size of the
-- output of compress2, RAND_MAX, and the vtables of the readers as tables and of their iterators.
use reftable.Base.{ℕ, List, Option, Result}
use reftable.Record.Types.{Record}
use reftable.Generic.{Table}
use reftable.Block.Writer.{ZResult}
use reftable.Stack.Types.{OpenReader}

-- The fuels: the rounds of a reload, the blocks of a table that is closed, the records of a table, and the
-- records that a merged iterator passes over.
pub record Env (S : Type 0) : Type 0 where
  pub crc32 : ℕ → List ℕ → ℕ
  pub compress2 : ℕ → List ℕ → ZResult
  pub first_cap : ℕ → ℕ
  pub rand_max : ℕ
  pub next : S → Record → Result (Option (Record × S))
  pub table_from_reader : OpenReader → Table S
  pub reload_rounds : ℕ
  pub close_fuel : ℕ
  pub records_fuel : ℕ
  pub merge_fuel : ℕ
