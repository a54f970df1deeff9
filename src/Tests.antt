-- ===== src/Tests.antt =====
-- Concrete instances of the parameters, runs of the model, and the theorems at concrete inputs.
pub mod Toy
pub mod Packets
pub mod Discovery
pub mod Messages
mod Frames
pub mod Interrupted
mod OutOfRange
mod Kept
mod Library
pub mod Program
mod Terminal
mod Positions
pub mod Watching
pub mod Accounts
pub mod Quitting
