-- ===== src/Programs.antt =====
-- The small programs of the repository: examples/systemcalls, examples/threading and
-- finder-app/writer.c. What the system answers is an argument; where a call is refused it has no
-- effect.
pub mod Systemcalls
pub mod Threading
pub mod Writer
mod Tests
