-- ===== src/Fsk.antt =====
-- JNI/Common/FSKdsp.c: the thread that turns audio samples into bytes.
pub mod Edge
pub mod Clock
pub mod Frame
pub mod Samples
pub mod Receiver
pub mod Clear
pub mod Signal
pub mod Recovery
pub mod Text
pub mod Acquire
pub mod Preamble
pub mod Message
pub mod Limit
pub mod Stale
pub mod Idle
pub mod Again
pub mod Front
pub mod Slicer
pub mod Thread
pub mod Drain
pub mod Start
mod Tests
mod SignalTests
mod ThreadTests
