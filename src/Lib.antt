-- ===== src/Lib.antt =====
-- undici, an HTTP and WebSocket client for JavaScript: a model of parts of its code, with theorems.
--
-- The parts, and the code each one is about (paths from the repository's root):
--   Tree        lib/core/tree.js: the ternary search tree (TstNode, TernarySearchTree) that knows the
--               well-known header names; the loop of lib/core/constants.js that lower-cases them; and
--               bufferToLowerCasedHeaderName of lib/core/util.js, which looks a name up.
--   FixedQueue  lib/dispatcher/fixed-queue.js: the queue of pending requests, as a linked list of
--               circular buffers of 2048 slots.
--   WebSocket   lib/web/websocket: the opcodes and codes (constants.js, util.js), the frames that are
--               sent (frame.js, in WebSocket.Frame), closing and failing a connection (connection.js,
--               in WebSocket.Connection), and the parser of received frames (receiver.js, in
--               WebSocket.Consume, Machine, Payload and Receiver).
--   Date        lib/util/date.js: parseHttpDate with its three formats, over the calendar of the platform.
--   Socks5      lib/core/socks5-client.js: the client's side of the SOCKS5 handshake (Socks5Client); and
--               lib/core/socks5-utils.js: the texts and bytes of its addresses, in Socks5.Address.
--   Timers      lib/util/timers.js: the fast timers, whose array one tick of the clock walks.
--   Pools       lib/dispatcher: the choice of an upstream by its weight (balanced-pool.js, in
--               Pools.Balanced) and of a connection in turn (round-robin-pool.js, in Pools.RoundRobin, with
--               the adding and removing of clients of pool-base.js).
--   EventSource lib/web/eventsource/eventsource-stream.js: lines and their fields, the
--               events, and in EventSource.Stream the chunks and cursors, against a reader of bytes.
--   Cookies     lib/web/cookies: the writer of a Set-Cookie header (stringify of util.js, in Cookies) and
--               its parser (parse.js, in Cookies.Parse).
--   Mime        lib/web/fetch/data-url.js: the parser and the writer of MIME types; what they and the cookies
--               use of lib/web/infra/index.js is in Infra.
--   Base        the names, lists, bits and results that the parts share.
--
-- How state is modelled. The tree is a value, and an insertion returns the new tree or the error
-- that the code throws. The buffers of the queue may be shared by `head`, `tail` and `next`, so
-- they lie in a store and these fields are addresses. ByteParser is a record of the buffered
-- chunks, their length and a Machine, which holds the other fields; `socket.write`, `onMessage`,
-- `onPing` and the like append to the log of the Handler, so that their order can be stated; so
-- do the socket and the listeners of Socks5Client. The fast timers are known by numbers, and
-- their callbacks are functions of all that is so far; clients and upstreams are known by their
-- place in the pool. A round of the loop in `run` is `handle_in` on the bytes that `consume`
-- took, and its Outcome says how the loop goes on; the endings of `run` (it called back, it
-- returned without calling back, it waits for the decompressor, it threw) are the constructors
-- of Run.
--
-- Bounds and fuel. The loop of ByteParser.run gets 2 n + 2 rounds for n buffered bytes. That is
-- enough: a round consumes a byte or more, unless it reads an empty payload, behind which the
-- parser waits for a header; the event stream's loop has two rounds for each byte and one more,
-- as a byte that starts a line takes two. Euclid's loop in balanced-pool.js gets a round more
-- than the second number, which gets smaller in each. The loop over a cookie's attributes gets
-- one for each character, and takes one or more in each; so does that over a MIME type's
-- parameters. A number has 21 digits at most, as JavaScript writes those below 10^21. The loops
-- over arrays that change below them, in timers.js and in the pools, recurse on the number of
-- places that are left. Every other loop recurses on the list or tree it walks. Numbers are
-- natural numbers: the code modelled here has no negative ones, but a cookie's age, which has
-- its sign beside it, and the -1 that stands for no match in date.js, for no index in the pools
-- and for no start in timers.js and is `none` here. None passes 2^53 while a body is below 2^48
-- bytes, but a reconnection time that an event stream sends and an age of a cookie that is read,
-- which JavaScript rounds.
--
-- Parameters: the bytes that `randomFillSync` gives, what the decompressor calls back with, and
-- the tests `net.isIPv4` and `net.isIPv6`; what the callbacks of the timers call; `new Date` of
-- a text, for a cookie. `toLowerCase` in parse.js is that of characters below 256.
--
-- Not modelled: sockets, streams and events; the opening handshake of a WebSocket and its
-- extension header; the inflate stream of permessage-deflate; fetch, the HTTP/1 and HTTP/2
-- clients, the draining and closing of pools, agents and proxies; the test helpers of timers.js
-- (`tick` sets the clock below 0); caches; data URLs but for their MIME types; the headers that
-- cookies are read from and appended to; the connection of an event source; the generated
-- parsers. They are I/O, glue over the platform, or parts of their own that this library has not
-- reached.
pub mod Base
pub mod Tree
pub mod FixedQueue
pub mod WebSocket
pub mod Date
pub mod Socks5
pub mod Timers
pub mod Pools
pub mod EventSource
pub mod Infra
pub mod Cookies
pub mod Mime
