-- ===== src/Civ.antt =====
-- src/cat_civ.c, src/cat_civ.h: the Icom CI-V decoder. State holds the decoder's state and its frame
-- callback, Decode the meaning of frames, Pending the commands that wait for their answer, Classify
-- what becomes of a complete frame, Framer the byte level and the decoder's interface. The others hold
-- theorems: Bounds the invariant, Framing, Query and Sets whole frames, Quiet and Unasked what leaves the
-- state alone, Discard and Resends the pending commands, Bcd frequencies.
pub mod State
pub mod Decode
pub mod Pending
pub mod Classify
pub mod Framer
pub mod Quiet
pub mod Bounds
pub mod Discard
pub mod Resends
pub mod Bcd
pub mod Framing
pub mod Unasked
pub mod Query
pub mod Sets
