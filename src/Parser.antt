-- ===== src/Parser.antt =====
-- src/parser.rs: the incremental line parser. `Guard` reads the guard lines, `Notify` the text
-- notifications, `Payload` the byte path, and `Frame` frames the reply blocks.
pub mod Guard
pub mod Notify
pub mod Payload
pub mod Frame
