-- ===== src/Block.antt =====
-- c/block.c and c/block.h: blocks of records with restart points.
pub mod Buffer
pub mod Writer
pub mod Reader
pub mod Fill
pub mod Body
pub mod Iterate
pub mod Image
pub mod Open
pub mod RoundTrip
mod Examples
