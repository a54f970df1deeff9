-- ===== src/Loop.antt =====
-- loop.h: the play position, the segments to skip, and the loop that serves a connection.
pub mod Position
pub mod Seek
pub mod Handle
pub mod Serve
pub mod Watch
pub mod Progress
