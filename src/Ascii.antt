-- ===== src/Ascii.antt =====
-- src/cat_ascii.c, src/cat_ascii.h: the decoder of the ASCII CAT protocols (Kenwood, Elecraft, newer
-- Yaesu, Flex). State holds the decoder's state, Fields the values in frames, Effects what frames
-- do to the state, Commands the frames themselves, Pending the commands that wait, Framer the bytes.
-- The others hold theorems: Bounds the invariant, Framing whole commands, Answers and Discard the
-- pending commands, Digits frequencies.
pub mod State
pub mod Fields
pub mod Effects
pub mod Commands
pub mod Pending
pub mod Framer
pub mod Digits
pub mod Discard
pub mod Bounds
pub mod Framing
pub mod Answers
