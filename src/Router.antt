-- ===== src/Router.antt =====
-- src/mhrouter.c: the routing between connectors and the keyer, without the reads, writes and callbacks
-- themselves. State holds the state, Sends the data to the keyer and to connectors, Producers the
-- connectors' side to the keyer and its PTT, Consumers their other side.
pub mod State
pub mod Sends
pub mod Producers
pub mod Consumers
pub mod Ptt
pub mod Turns
pub mod Invariant
pub mod Watchers
pub mod Calls
pub mod Whole
