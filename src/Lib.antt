-- ===== src/Lib.antt =====
-- squidlet: the core of a home automation system that runs on small hosts, written in TypeScript.
-- Its system library (system/lib) carries events, queues, byte formats and the network frames;
-- drivers, devices and managers are built of them.
--
-- - Base and its children: Boolean tests on numbers, lists by position, association lists in the
--   order of insertion (the objects that the code uses as maps), and results that are a value or a
--   thrown error with its text.
--
-- - Events.Handler, Events.Indexed: system/lib/IndexedEvents.ts, handlers in an array by index; a
--   removed one leaves a hole. `emit` walks the live array, since a `once` wrapper removes itself
--   while it runs; the handlers do not call the object.
--
-- - Events.Emitter: system/lib/IndexedEventEmitter.ts, handlers by event name. Coherent, Changes
--   and Invariant hold what makes the indexes and the handlers agree; Emission, Views and Histories
--   what `emit` and `getListeners` do; Unnamed the call of `removeListener` without an event name,
--   Reentry a handler that removes another. What a handler does with the emitter is an argument of
--   `emit`; but for Reentry it does nothing.
--
-- - Queue: system/lib/Queue.ts, one job at a time. Queue/Jobs has the data; `settle` is the end of
--   a callback that `startJob` called, `fire` the timeout that it armed, `on_end` the listeners of
--   the event `endJob`, which may call the queue themselves. Invariant, Ends and Steps hold what
--   stands between calls, Fifo the queue as an abstract list, Ended what happens after `destroy`.
--
-- - Timers: `setTimeout` and `clearTimeout` of the language, with what holds between the handles
--   that an object keeps by id and the timers that are armed. Pair has what holds of an object with
--   a fixed field for each timer.
--
-- - Promised: system/lib/Promised.ts, each method, and what becomes of the promise.
--
-- - Debounce: system/lib/debounceCall/DebounceCall.ts and DebounceCallIncreasing.ts. `fire` is the
--   function that `setTimeout` is given; the promises that were made stand in a list, since the
--   callers keep them.
--
-- - Throttle: system/lib/debounceCall/ThrottleCall.ts, on the entries of Debounce.
--
-- - Sessions: system/lib/Sessions.ts, with the close event in Events.Indexed. Ends holds what is
--   left of a session that ended.
--
-- - Override: system/lib/QueueOverride.ts. `settle` is the end of a callback that `startCb` called,
--   `fire` the timeout that it armed, and `follow` a promise that settles after another. Pairs
--   holds what an item has, Timeouts what the one timeout of all the ids does.
--
-- - Polling: system/lib/Polling.ts, polls by id, with the intervals of the language. `restart`
--   waits for the method of the poll, so it is two steps.
--
-- - Sender: system/lib/Sender.ts, requests that are sent again after an error. `Answer` is what the
--   callback gives for an attempt, with the time it takes; `try_send` runs on fuel, one more than
--   the timeout in milliseconds, which is enough since each attempt is later by a millisecond at
--   least.
--
-- - Consistent: system/lib/ConsistentState.ts, on the merge of objects in system/lib/objects.ts.
--   Merges has what a key of a merge is, Failures the writes that fail.
--
-- - State: system/lib/State.ts, states by category and name, on the merge of Consistent; their
--   values are primitive, which `isEqual` of system/lib/common.ts compares with `===`.
--
-- - InitIc: system/lib/logic/InitIcLogic.ts, with the timers of Timers. Rounds has the tries as a
--   reference machine, Cancels a cancel during a try.
--
-- - RemoteCall: system/lib/remoteCall, the messages of both sides. A method and a callback are
--   functions that the theorems range over.
--
-- - Text: system/lib/strings.ts and system/lib/paths.ts.
--
-- - Binary: system/lib/binaryHelpers.ts and `padStart` of system/lib/strings.ts. Radix has what
--   these use of the language, `toString` of a number and `parseInt` of a text, Hex the hexadecimal
--   texts, Bits the bits of a byte.
--
-- - Click, Output, BinaryInput, ImpulseInput, ImpulseOutput: entities/drivers/BinaryClick,
--   BinaryOutput, BinaryInput, ImpulseInput and ImpulseOutput, the pins of buttons, relays and
--   sensors. A step is a call, an answer of the pin that was written, or a timer that fires; in
--   Output the end of a write and what its caller does behind `await` are one step, so that no call
--   stands between them.
--
-- - Pcf8574: entities/drivers/Pcf8574/Pcf8574.ts, the pins of an expander in one byte. The helpers
--   for input and output are told of in a list of calls.
--
-- - Digital: system/lib/digitalHelpers.ts. Arrays: system/lib/arrays.ts. Validate: the names of
--   props in system/lib/validate.ts.
--
-- - Network: system/lib/networkHelpers.ts, requests and responses as bytes, and in Network.Driver
--   the dispatch of incoming bytes in system/lib/base/NetworkDriverBase.ts.
--
-- Handlers and callbacks are values of a parameter type; what running one gives (nothing or an
-- error) is a function that the theorems range over. A callback that is a promise is started by one
-- step and ends in another, so every interleaving is a list of steps. The clock is a time that
-- Sender is told; elsewhere a timer is an entry of a list, and it fires at any later step until it
-- is cleared. Loops are structural; `digits_from` runs on fuel, one more than the number, which is
-- enough since every round divides it by the radix.
--
-- Numbers are natural: the code's negative indexes and the rounding of floating point numbers are
-- left out, and so are the listeners of the drivers and the set up of their pins, which only pass
-- calls on. Promises that wait for the end of a job, the parsing of URLs and JSON, and the input
-- and output of the hosts are not modelled.
pub mod Base
pub mod Events
pub mod Queue
pub mod Timers
pub mod Promised
pub mod Debounce
pub mod Throttle
pub mod Sessions
pub mod Override
pub mod Polling
pub mod Sender
pub mod Consistent
pub mod State
pub mod RemoteCall
pub mod Binary
pub mod Text
pub mod Digital
pub mod Click
pub mod Output
pub mod BinaryInput
pub mod ImpulseInput
pub mod ImpulseOutput
pub mod InitIc
pub mod Pcf8574
pub mod Arrays
pub mod Validate
pub mod Network
