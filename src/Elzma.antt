-- ===== src/Elzma.antt =====
-- elzma/elzma.c and elzma/util.c: the command-line tool.
pub mod Args
pub mod Names
pub mod Files
pub mod Progress
pub mod Compressing
pub mod Decompressing
pub mod Mode
pub mod Journal
