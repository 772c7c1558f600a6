-- ===== src/Lib.antt =====
-- The RCT Power serial protocol, the Rust crate rctpower_protocol.
--
-- The crate reads and writes the objects of an RCT inverter over TCP. A value (`DataValue`) is
-- encoded to a payload (src/codec.rs), the payload is packed into an escaped frame with a
-- checksum (`make_frame` of src/frame.rs), and an incremental parser (`ReceiveFrame`) takes the
-- answer out of the bytes that a socket gives. Two clients, the blocking `Client` of
-- src/client.rs and the tokio `AsyncClient` of src/async_client.rs, do this over a connection
-- that they keep, with retries and a write that is read back. The proxy of src/proxy.rs lets many
-- clients share one connection: it finds the frames in what each client sends, forwards each in an
-- exchange of its own, and hands back the answer. src/registry.rs knows the objects of the device
-- from a table in the crate, src/writable.rs which of them may be written, and with what; the
-- command examples/rct.rs puts these together with the blocking client.
--
-- The files:
--   Base            native numbers, Boolean tests, lists, bytes and words, bits, two's complement
--                   integers, texts as UTF-8 bytes, `String::from_utf8_lossy`; Strings, what std's
--                   `str` does (split, lines, trim, the parsers of integers), with its laws
--   Types           src/types.rs: Command, ObjectGroup, DataType, DataValue, each with its laws
--   Error           src/error.rs: RctError, and `Result` with a third outcome, a panic
--   Codec           src/codec.rs: Crc (`crc16`), Encode (`encode_value`, `encode_for`, `to_i64`),
--                   Decode (`decode_value`), RoundTrip
--   Frame           src/frame.rs: Send (`make_frame`), Receive (`ReceiveFrame::consume`, cut at
--                   its branches into functions that pass the parser on), with lemmas on each
--                   part of a frame in Receive/Quiet, Receive/Header, Receive/Finish,
--                   Receive/Whole; RoundTrip, Corrupted, Checked, Address; Chunks, one
--                   call of `consume` cut into several; Escapes and Wire, the fields `raw` and
--                   `buffer`, with the parser fed again what it has stored in Wire/Count,
--                   Wire/Again, Wire/Standing; Panics; Runs are the crate's golden frames
--   Registry        src/registry.rs: the record ObjectInfo; Build (`build`, the lookups,
--                   `enum_str`), Lookup, Table and Json (the two files that
--                   tools/generate_registry.py writes), Count, Meta, Generated, Enum
--   Client          Network, the outcomes of socket calls; Retry, the operations that both clients
--                   build on `try_exchange`, word for word the same in both sources; Reads, what
--                   their receive loops and the proxy's have in common; Blocking, src/client.rs;
--                   Pooled, src/async_client.rs; Config (`ClientConfig`); Clock, the receive
--                   loops with the time that they look at, with Ends (src/client.rs), Before
--                   (src/proxy.rs) and Endless (src/async_client.rs)
--   Proxy           src/proxy.rs: `exchange`, `exchange_on`, and `serve_client` cut into a byte
--                   (`hear`, `deliver`, `serve_byte`), a read and a session; Requests, the frames
--                   in a client's bytes; Transparent, Serving, Answered, Closing; Panics, where
--                   the parser panics under a session, and Surviving;
--                   Pieces and Conversation, a whole session; Relayed, what passes the proxy;
--                   Describe (`describe_frame`); Bind (`Proxy::bind`); in Interleaved, `serve`,
--                   many clients as a step relation, with Streams, what a client of many has
--                   forwarded, Replies, whose answers a client gets,
--                   and Serialized, the sequence of exchanges behind a state; Through, the
--                   clients of Client on a proxy
--   Writable        src/writable.rs: WRITABLE, `rule_for`, `validate`, `parse_value`; Double, f64 as
--                   bit patterns; Value, the numbers of the patterns in units of 2 ^ -1074; Cast,
--                   Texts, Range, Real, Parsing
--   Rct             examples/rct.rs: the commands `get` and `set`, Main with `main` and the
--                   listing of `params`; Safety, Main/Listed
--   RctProxy        examples/rct_proxy.rs, up to the start of the proxy
--   Tests           the theorems at concrete inputs; Golden, the tests in the source files, those
--                   against tests/simulator.py with a model of it
--
-- How the code is read. A byte, a u16, a u32 and a usize are native numbers, and what wraps is
-- written out; a list of bytes is shorter than 2 ^ 64, and additions wrap as in a build without
-- overflow checks. Indexing and slicing out of range are the outcome `panic` of `Result`. An f32
-- is its bit pattern, and its comparison is defined on the bits; its conversions to and from
-- integers and to text are the parameter `Floats`, its parser is the parameter `parse_f32`, and
-- the derived `Debug` of values is the parameter `Debug`. An f64 is its bit pattern too, with its
-- order and the casts to it, of an f32 and of integers below 2 ^ 53, defined on the bits. The
-- texts of the two data files are arguments of `build`, a `HashMap` is the list of its insertions
-- with the last one in front, and the registry is an argument of what uses it. The parser's `&mut
-- self` is an argument and a part of the result, its accessors are the fields.
--
-- The network is a parameter: for each exchange, by number, it gives the outcome of every call
-- (name lookup, connect, timeouts, write, and the list of what the reads answer). The list of
-- reads ends where the time does, so that the receive loop is a recursion on the list.
-- Client/Clock has the same loops on reads without an end that take time, on fuel: for those with
-- a deadline a tick more than the timeout (two for the blocking client, which looks at the clock
-- before a read only) is enough where each read takes a tick, and the list is that of the reads
-- in time; the pooled client has no deadline. Retries recur on the attempts that are left,
-- `retries.max(1)` at first. For the proxy there is such a record for each exchange too, and the
-- reads from a client are a list; a session goes on at the end of its list. The upstream lock is
-- held for a whole exchange, so that an exchange is one step of the many clients. Fuel is else
-- only in loops of std: the digits of a number, decimal or hexadecimal, take one more than the
-- number, and are read back as the number; `normal` of Writable/Double takes 53, the bits of an
-- f64, and Writable/Cast proves that it gives the number it is given.
--
-- Not modelled: the log lines of the proxy but for `describe_frame`, the address of its
-- listener, the sleeps between attempts, the shutdown of sockets on drop, the messages of
-- thiserror, the parsing of arguments in the examples and what their commands print but for the
-- listing, the tests in tests/e2e_simulator.rs, and of tools/generate_registry.py all but the two
-- files it writes, for a commit that needs no escapes in JSON.
pub mod Base
pub mod Types
pub mod Error
pub mod Codec
pub mod Frame
pub mod Registry
pub mod Client
pub mod Proxy
pub mod Writable
pub mod Rct
pub mod RctProxy
pub mod Tests
