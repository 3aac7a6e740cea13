-- ===== src/Ybin.antt =====
-- src/cat_ybin.c, src/cat_ybin.h: the decoder of the binary CAT protocol of older Yaesu radios. Models
-- holds the table of models, Lengths how long an answer is, Modes and Fields the values in frames,
-- Answers and Commands what frames do to the state, State the decoder's state, Pending the commands
-- that wait for their answer, Framer the byte level and the calls.
pub mod Models
pub mod Lengths
pub mod Modes
pub mod Fields
pub mod Answers
pub mod Commands
pub mod State
pub mod Pending
pub mod Framer
pub mod Filler
pub mod Received
pub mod Expire
pub mod Discard
pub mod Bcd
pub mod HostFraming
pub mod Framing
pub mod Exchange
pub mod Names
pub mod Refusals
pub mod Bounds
