-- ===== src/AtChannel.antt =====
-- reference-ril/atchannel.c: the AT command channel. The reader thread cuts the input into lines
-- (LineReader) and sorts them (Reader); a command thread sends a command and waits (Command).
pub mod LineReader
pub mod Lines
pub mod Write
pub mod Reader
pub mod Command
