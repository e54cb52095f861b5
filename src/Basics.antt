-- ===== src/Basics.antt =====
-- c/basics.c and the functions of c/git-compat-util.c and c/strbuf.c that carry logic.
pub mod BigEndian
pub mod BinSearch
pub mod Names
pub mod Bytes
mod Examples
