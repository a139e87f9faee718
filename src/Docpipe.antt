-- ===== src/Docpipe.antt =====
-- The document flow library (docpipe): which type the pages of a file have, and how they are grouped into
-- documents.
pub mod Group
pub mod Decision
