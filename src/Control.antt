-- ===== src/Control.antt =====
-- src/mhcontrol.c: the commands to the keyer, their answers, and the state of the connection.
pub mod Numbers
pub mod State
pub mod Queue
pub mod Speed
pub mod Start
pub mod Receive
pub mod Commands
pub mod Info
pub mod Order
pub mod Kept
pub mod Calls
pub mod Flush
pub mod Owed
pub mod Steady
pub mod Progress
pub mod Exchange
pub mod Answered
pub mod Reached
