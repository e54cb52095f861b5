-- ===== src/Record.antt =====
-- c/record.c: the encoding of the four kinds of records.
pub mod View
pub mod Codec
pub mod VarInt
pub mod Text
pub mod Key
pub mod Types
pub mod Ref
pub mod Index
pub mod Obj
pub mod Log
pub mod Any
pub mod RoundTrip
mod Examples
