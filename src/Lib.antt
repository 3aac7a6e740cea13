-- ===== src/Lib.antt =====
-- mhuxd connects a microHAM keyer to the applications of a radio operator. The keyer's serial stream
-- is taken apart into channels and put together again, channels are offered as serial ports and TCP
-- connections, and what applications and the radio say to each other over a CAT channel is decoded,
-- so that the frequency and mode of the radio are known without asking twice. This library models the
-- stream, the decoding, and the commands to the keyer with its settings, in these parts:
--
--   Base       numbers of w bits, arrays as lists, texts as character codes, tests, and the loops that
--              remove from an array, with their lemmas
--   Buffer     src/buffer.c: `struct buffer` is the record `Buffer`, each `buf_*` function the
--              definition of the same name without `buf_`
--   Channel    src/channel.c, src/channel.h: the numbers and names of channels
--   Demux      src/demux.c: `struct dmx` is `Dmx`, `dmx_demux` is `demux`
--   Mux        src/mux.c: `mx_mux` is `mux`, the body of its `for` loop `fill_frame`
--   CatState   src/cat_state.c, src/cat_state.h: `struct cat_state` is `CatState`, each `cat_state_*`
--              function the definition without that prefix; Modes is `enum cat_mode`
--   Cat        src/cat.h: directions, kinds of frames, statistics
--   Civ        src/cat_civ.c: the decoder of Icom radios. `struct cat_civ` is `Civ.State.Civ`, and
--              `cat_civ_feed`, `cat_civ_client_discard` and `cat_civ_resend` are `feed`,
--              `client_discard` and `resend` of Civ.Framer; static functions keep their names
--   Ascii      src/cat_ascii.c: the decoder of Kenwood, Elecraft, Yaesu and FlexRadio, in the same way
--   Ybin       src/cat_ybin.c: the decoder of the binary protocol of older Yaesu radios. `struct cat_ybin`
--              is `Ybin.State.Ybin`; the calls `cat_ybin_*` are in Ybin.Framer without that prefix
--   Router     src/mhrouter.c: `struct mh_router` is `Router.State.Router`; the functions `mhr_*` are the
--              definitions without that prefix, `process_ptt_producer` is `process_ptt`
--   Mhinfo     src/mhinfo.c, src/mhinfo.h: the keyer types and what each can do; the functions `mhi_*`
--              are the definitions without that prefix, Flags are the bits `MHF_*`
--   Kcfg       src/kcfg.c: the settings of a keyer. `struct kcfg` is `Kcfg.Settings.Kcfg`, the tables of
--              options are in Tables, and the functions `kcfg_*` are the definitions without that prefix
--   Control    src/mhcontrol.c: `struct mh_control` is `Control.State.Control`; the functions `mhc_*` are
--              the definitions without that prefix (`mhc_mk2r_` and `mhc_sm_` likewise), static
--              functions keep their names. `router_status_cb` is `connected` and `disconnected`
--   Tests      the theorems at concrete inputs
--
-- `mx_mux` reads the buffers of the channels into a buffer to the keyer, and `dmx_demux` takes the
-- keyer's stream apart byte by byte. The three CAT decoders are fed the bytes of up to nine client
-- applications, of mhuxd itself and of the radio, each through a framer of its own; a whole frame is
-- matched with the commands that wait for their answer, updates the `CatState`, and is reported to
-- a callback. The router stands between connectors and keyer: it fills the channels' buffers, decides
-- which connectors are read, and joins the PTT that they hold into one flags byte. The control part
-- sends commands to the keyer over the router's control channel, one at a time, starts the connection
-- with them, and passes on what the decoders know of a radio; one of its commands is the settings.
--
-- How the source is modelled: a function that changes an object takes it and returns it. -1 and null
-- are `none`, and unsigned members keep their wrap-around (`u8`, `u16`, `u32`, `u64`), as
-- `buf_add_size` and the counters show. An array with a length member is the list of its first
-- elements. The storage of `struct buffer` and the command buffer of `struct dmx` are lists of their
-- full 4096 bytes. The frame callback of a decoder is a log of its calls, kept while a callback is
-- set. An `int` that is only 0 or 1 is a `Bool`. Framers and channel buffers are functions of their
-- index. The binary Yaesu decoder copies an answer to an array of 80 bytes and decodes it there:
-- what that array holds behind the bytes copied, at each index, is the field `filler` of the model. `answer_done` is
-- two definitions, `answer_complete` and `answer_ended`, by its flag `complete`.
--
-- In the router a watcher of the event loop is a truth value, whether it is started. Descriptors are
-- numbers, -1 is `none`; whether data wait in a socket is a function that next_waiting_producer takes.
-- The bytes that process_ptt_producer takes from the channel's buffer are an argument of `process_ptt`.
--
-- An `int` that kcfg_set_val takes is given by its 32 bits; its options lie in bytes, given as a list.
-- In the control part a timer is a truth value, whether it runs, and the time of an event is an argument.
-- A completion callback is an `Owner`: those of mhcontrol.c are modelled, with what they do, and the
-- others are numbers. `completed` is the log of all that were called, and `deferred` those that were put
-- off, which the event loop calls in any order. What such a callback, or a listener, does to the
-- connection is a call of its own. Of a speed, `baud` counts hundredths and `stopbits` halves, both not
-- negative; a node of the configuration stands for the values read from it. `crashed` records that a null
-- pointer was read. `PACKAGE_STRING`, which the build sets, is an argument of `create`. That the antenna
-- switch is asked for its state is an event, told for every Station Master; the commands are src/mhsm.c's.
--
-- Loops are structural recursion over lists or over the number of rounds left, but for the
-- `do … while` of `mx_mux`, which has fuel: 1025 rounds, of which each but the last puts a frame of four
-- bytes or more into a buffer of 4096, so that the fuel does not run out. The `while` loops of the
-- binary Yaesu decoder and that of `flush_cmds` have as many rounds as commands wait, and each removes one.
--
-- Not modelled: log messages; `buf_free` and the other destructors; the channels PS2 and 8, which
-- have no name; the sub receiver's frequencies of `struct mhc_radio_info`, always 0; what stands
-- around the decoders (src/cat_native.c, src/cat_trace.c); of the router the callbacks that read and
-- write descriptors, the lists of callbacks, and the leaky bucket, which computes with floating
-- point numbers; of the control part `flags_cb`, the lists of listeners, the texts of stored messages,
-- the data rate that the router is told, the loops over options on a configuration node, and getters;
-- the antenna switch (src/mhsm.c) and the settings of single keyers (src/mhmk2.c, src/mhmk2r.c);
-- connections, devices, processes, the web interface and the daemon, which are input
-- and output over an event loop; and src/clearsilver, a copy of another project.
pub mod Base
pub mod Buffer
pub mod Channel
pub mod Demux
pub mod Mux
pub mod CatState
pub mod Cat
pub mod Civ
pub mod Ascii
pub mod Ybin
pub mod Router
pub mod Mhinfo
pub mod Kcfg
pub mod Control
pub mod Tests
