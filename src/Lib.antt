-- ===== src/Lib.antt =====
-- cadeloop: a model of the event loop's core crate (crates/core), which is free of Python and of system
-- calls, and of the transports and the native queue of its Python binding (crates/pyshim), with the theorems
-- that make the parts correct.
--
-- The parts and how they interact. The reactor (crates/core/src/reactor.rs) runs one tick after the other:
-- it drains callbacks that other threads queued, fires the timers that are due, polls a kernel backend, and
-- hands a batch of callbacks to the binding layer. It owns a timer heap, and asks a spin gate whether to
-- poll busily before it parks. The backends keep each operation that the kernel may still write to in a
-- slot of the operation slab. The WebSocket codec turns the bytes of a connection into events. A transport
-- queues what a protocol writes and hands it to the backend, which answers with completions, and passes what
-- the backend received on to the protocol, through events that are dispatched once the poll is over.
--
-- Prelude: the names that the modules share, lists over native numbers, Boolean tests, exclusive or, and
--   code that may panic (Prelude/Partial: `none` is a panic, or fuel that ran out; `Yields P m` says that
--   `m` returns a value in P).
-- SpinGate: crates/core/src/spin_gate.rs. `should_spin` and `record_spin` are the methods; `park` is what
--   `Reactor::poll` does with them. SpinGate/Credit counts spins over runs of parks.
-- OpSlab: crates/core/src/opslab.rs. The chunks are laid end to end in one list, since they are only ever
--   appended; the address of a new chunk is an argument of `grow` and `post`. OpSlab/Invariant is the
--   bookkeeping, OpSlab/Lifecycle the calls as a step relation, OpSlab/Calls what they answer, and
--   OpSlab/Pointers the screen `contains_data_ptr`, for any layout of a slot.
-- Timer: crates/core/src/timer.rs. Timer has the sift loops, Timer/Array the writes to the vector, and
--   Timer/Heap the methods of `TimerHeap`. The payload is any type with the interface `TimerPayload`.
--   Timer/Order and Timer/Sift have the order, and Timer/Heap/* the methods' theorems.
-- Ws: crates/core/src/ws.rs. Ws/Utf8 is the UTF-8 validation of the standard library, Ws/Wire what the
--   server writes, and Ws/Rx the receiver `WsRx`: `parse_one` in the stages of the source, `parse_all` and
--   `push`. Ws/Handshake is `sha1`, `base64` and `accept_key`; Ws/Handshake/Base64 has a decoder from RFC 4648, and
--   Ws/Handshake/Accept the theorems.
--
-- Ready: crates/core/src/ready.rs. `drain_into` is the drain as one call, and Ready/Handoff the producers
--   and the drain as single steps that interleave; Ready/Drain joins the two.
-- Pool: crates/core/src/buffers.rs. A class's parallel vectors are parallel lists; Pool/Tally has sums over
--   them, Pool/Invariant and Pool/Slots and Pool/Counts the bookkeeping of a class, Pool/References the pool as a
--   table of references by id, Pool/Generations and Pool/Turns how the generations of slots move through the
--   calls, Pool/SlotIds the comparison of ids, Pool/Runs the pool's runs, and Pool/Memory the bytes that it reports.
-- FastQueue: crates/pyshim/src/fastqueue.rs, with the futures of its waiters. FastQueue/Steps has the coroutines
--   of python/cadeloop/queues.py from one await to the next as a step relation, FastQueue/Wake the handing out of
--   a wake, FastQueue/Live the steps' invariant and FastQueue/Runs their runs.
-- Outbox: the write side of a stream transport, of crates/pyshim/src/net.rs: Outbox has the queue, the gather send
--   and the completion, Outbox/Ops the calls (`Transport::write`, `write_eof`, `set_write_buffer_limits`, `close`)
--   and the flow control. `resume_writing` and a lost connection are events that are dispatched later, `pause_writing`
--   is called at once: `events` and `calls` keep the two apart, and `set_protocol` is left out. What the backend answers to `post_send` and the completions that it holds are
--   arguments. Outbox/Buffers is the bytes of the queue, Outbox/Gather a send's slices, Outbox/Invariant the
--   invariant, Outbox/Calls and Outbox/Writes that the calls keep it, and Outbox/Runs the runs.
-- Inbox: the read side of such a transport, of the same file: `on_recv_done`, `post_recv`, `pause_reading`,
--   `resume_reading`, and the dispatch of the inbound events, which are one queue in the order in which they will
--   be dispatched. Inbox/Bytes is what events stand for, Inbox/Order the invariant, Inbox/Dispatch and
--   Inbox/Arrivals that it is kept, Inbox/Runs the runs, and Inbox/Repause a run in which the order is lost.
-- Clock: crates/core/src/time.rs, over readings of the platform's clock that are arguments.
-- Reactor: crates/core/src/reactor.rs over any backend with the interface `IoBackend`. Reactor/Poll is
--   `Reactor::poll`, whose spin is given the looks that there was time for; Reactor/Batch, Reactor/Timeout
--   and Reactor/Timers have the theorems on the tick, and Reactor/Poll/Gate those on the spin gate.
-- Backend: what crates/core/src/backend/mod.rs computes for every backend, `io_len` and `wait_millis`.
-- Http: crates/core/src/http.rs, the accumulator `Acc` and the callbacks, in any order in which llhttp may
--   call them; what llhttp passes on and knows is an argument. A callback's `Verdict` is `next` (0) or
--   `halt`. Http/Queue is what the caller of the parser takes. The method
--   stays the number that llhttp has for it.
--
-- Numbers: `u8`, `u32` and `u64` fields are natural numbers, with the wrap-around written out where a sum
-- can leave the width. `Vec` and slices are lists, `&mut self` is the state that comes back.
-- Fuel: the loops of the heap get as many rounds as there are entries and one more, since every round
-- moves along a path of the tree or removes an entry; `parse_all` gets one round for each byte and one
-- more, since every round but the last consumes bytes; `fire_loop` gets one round for each timer and one
-- more; the padding of SHA-1 gets 64 rounds, since fewer than 64 zeros are missing. The theorems show that
-- the loops return. `settle_inline` looks eight times at most, as the source does.
--
-- Not modelled: the kernel backends (system calls), the socket bindings, the vendored llhttp; in net.rs, TLS and
-- HTTP connections, datagrams, listeners and the pool slots of receives; the rest of the Python binding
-- crates/pyshim, and the package python/cadeloop. `HttpParser::feed` of crates/core is left out too.
pub mod Http
pub mod Prelude
pub mod SpinGate
pub mod OpSlab
pub mod Pool
pub mod FastQueue
pub mod Outbox
pub mod Inbox
pub mod Timer
pub mod Ws
pub mod Ready
pub mod Backend
pub mod Clock
pub mod Reactor
