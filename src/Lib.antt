-- ===== src/Lib.antt =====
-- A model of the TypeScript package of Gossveil (sdk/ts/src), an implementation of a Signal-style
-- messaging protocol over a core in Zig that is compiled to wasm.
--
-- The program. core.ts loads the wasm module, turns its statuses into errors and copies bytes in
-- and out of its memory. bridge.ts wraps each export in a function on byte arrays. uuid.ts reads
-- and prints UUIDs. api.ts holds the classes of the API: keys, addresses, service ids, records,
-- messages, the store interfaces and an in-memory store, and the operations on sessions, groups
-- and sealed envelopes, which read the stores, call the core and save what it returns. wasm-api.ts
-- is a second API for the same core, with stores of its own.
--
-- Files.
--   Base: shared names, JavaScript strings (UTF-16 code units) and byte arrays, decimal numbers.
--   Fault: Status, kinds, GossveilError and fault of core.ts. Code that throws returns a Result.
--   Bridge/Call: class Call of bridge.ts with check, loaded, reserve and invoke of core.ts. The
--     exports are a parameter, the record Platform, together with TextDecoder and Number(bigint).
--   Bridge/View: the DataView reads and writes; Bridge/Sessions/Layout: the struct of sessionStart,
--     with Layout/Header for the C declaration of include/gossveil.h.
--   Bridge/Keys, Sessions, Circles, Envelopes, Reports, Handles, Vault, Primitives: the functions
--     of the object `core`.
--   Bridge/Memory: In, Out, Pad and Call by the regions of wasm memory that they allocate and free;
--     Memory/Ledger: how often a region is allocated; Memory/Calls: one call from end to end;
--     Memory/Bytes and Filled: the bytes that In, Out and Pad put in their regions; Memory/Taken:
--     the bytes that Out.take copies out, with Stands for what an export hands back and Ends for
--     all outputs of a call. What gv_free does to bytes that are not allocated is a parameter.
--   Loading: loadSource, init, initSync, adopt, isReady and fillRandom of core.ts; Loading/Ready: any
--     sequence of their starts and ends; Loading/Random: the requests of fillRandom.
--   Uuid: uuid.ts. BytesEqual: bytesEqual of core.ts. Dict: Map and Set. Exec: async code over the
--     stores, as state passing in which a throw keeps what was saved before it.
--   Keys, Address, ServiceId, Records, Messages: the classes of api.ts.
--   Store: the store interfaces as records of operations over any state; Store/Memory:
--     InMemoryProtocolStore.
--   Session: processBundle, sessionEncrypt, commit, sessionDecrypt, sessionDecryptPreKey, over any
--     stores. Session/InMemory: the same over the in-memory store; Session/Trust: sequences of
--     them; Session/Frame: what they leave alone; Session/Interleaved: sessionEncrypt cut at its
--     awaits, with Alone and Overlap for two calls of it that overlap; Session/Awaits: all of them
--     cut at their awaits.
--   Group: sender key distribution, groupEncrypt, groupDecrypt; Group/Awaits: the same cut at their
--     awaits.
--   Async: a call as the turns that it takes; Async/Operations: the operations on sessions and
--     groups over the stores of a host, in one piece and as turns; Async/Run: any number of calls
--     under a schedule, with Bounded and Keeps; Async/InMemory: overlapping calls over the
--     in-memory store, with Invariants, Alone, Races and Replay.
--   Sealed: certificates and contents, the listing of recipients, sealing and opening;
--     Sealed/Send/Grouping: which devices recipientsOf puts together.
--   Fingerprint, Account: safety numbers, usernames, backup keys, group parameters, primitives.
--   Wasm: wasm-api.ts. Wasm/Stores: its stores; Wasm/Sessions: its session functions, with View for
--     its stores seen as one InMemoryProtocolStore, and Refinement, Prekeys and Opener for the
--     comparison with api.ts; Wasm/Groups: its group functions, with Refinement for the comparison;
--     Wasm/Keys, Generate, Random: keys and parameters, prekeys, registration ids and UUIDs;
--     Wasm/Helpers: the helpers at its end.
--   Tests: the theorems at concrete inputs.
--
-- Correspondence. A function or method keeps its name in snake case. A class that only holds bytes
-- is those bytes. Whole numbers that are not negative are native numbers, with `>>> 0` written as
-- `% 2 ^ 32`, stores into a byte array as `% 256`, and the signed 64-bit ids by their two's
-- complement. The clock is an argument. An operation gets a Platform of its own, so the core may
-- behave in any way from one operation to the next; in one operation a call is a function of its
-- arguments. A turn of a call is one method of a store with the code up to the next, twelve at most
-- in any operation. The loop of fillRandom runs on fuel, one round for each 65536 bytes begun and
-- one more; the endless loop of generateRegistrationId runs over the draws that it is given; every other loop is a structural
-- recursion. A round of generatePreKeys draws random bytes anew and has a Platform of its own.
--
-- Not modelled: the Zig core and the SDKs for other languages; the runtime's fetch, files, URL and
-- WebAssembly, which are parameters; interleavings at the awaits of the operations on sealed
-- messages and of wasm-api.ts (each of them runs to its end); a trap in an export that has already
-- allocated; the re-exports of index.ts.
pub mod Base
pub mod Fault
pub mod Bridge
pub mod BytesEqual
pub mod Dict
pub mod Exec
pub mod Uuid
pub mod Keys
pub mod Address
pub mod Async
pub mod ServiceId
pub mod Records
pub mod Messages
pub mod Store
pub mod Session
pub mod Group
pub mod Sealed
pub mod Fingerprint
pub mod Account
pub mod Wasm
pub mod Loading
pub mod Tests
