-- ===== src/Refname.antt =====
-- c/refname.c: which names of refs are allowed.
pub mod Validate
pub mod Names
pub mod Addition
mod Examples
