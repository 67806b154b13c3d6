-- ===== src/Record.antt =====
-- src/libnf.c: records.
pub mod Raw
