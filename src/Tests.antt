-- ===== src/Tests.antt =====
-- The theorems at concrete inputs, by the part of the program that they are about.
mod Streams
mod States
mod Icom
mod Texts
mod Yaesu
mod Routes
mod Settings
mod Keyer
