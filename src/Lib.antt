-- ===== src/Lib.antt =====
-- The wide unsigned integers, the decimal numbers, the websocket frames, http bodies in chunks,
-- the pool of idle connections, the text codecs, the helpers for texts and the cache of strings of
-- vitex.
--
-- Parts and files. A `uint128` (src/vitex/compute.h, compute.cpp) is two 64-bit words, a `uint256`
-- two `uint128` halves, and a `decimal` (src/vitex/core.h, core.cpp) a string of digits, the
-- lowest first, with a count of those behind the point and a sign character.
--
-- Common holds Boolean tests, powers, lists, bytes and binary digits, as the other files share
-- them.
--
-- Uint128: Word has the record, the test for 0 and the comparisons; Arith `+`, `-`, `++`, `--`,
-- `~` and the unary minus; Logic `&`, `|` and `^`; Shift `<<` and `>>`; Multiply `operator*`;
-- Divide `divide`; Width `bits` and `bytes`; Encoding `encode`, `decode` and their compact forms.
-- `IsWide` says that the words are below 2^64 and `value` is the number. Words wrap around where
-- the source's do: `% 2 ^ 64` is written out.
--
-- Uint256 follows the same plan over the operations of Uint128: Word (with the bitwise operators),
-- Arith, Logic, Multiply, Shift, Width, Encoding and Divide, with the rounds of the loop in
-- Rounds. In both, Refinement puts the operators together.
--
-- Decimal: Number has the record, `pad` (the loops that bring two numbers to the same `length`),
-- `unlead`, `untrail`, `trim` and `compare_num`; Digits the loops `sum`, `subtract` and
-- `multiply`; Order the six comparisons; Arith `+`, `-`, `*` and the unary minus; Round `truncate`
-- and `round`; Division `operator/` and `operator%`; Text `apply_base10` and `to_string`; Radix
-- `from`. `IsNumber` is the invariant: digits only, one of them at least before the point, no
-- leading zero, and a sign. `Stands z scale p n` says that z meets it and stands for (p - n) /
-- 10^scale. A `uint32_t` precision is taken to be below 2^31, and an `int32_t length` never to be
-- negative.
--
-- WebSocket (src/vitex/network/http.cpp): Codec has the state of `web_codec`, `round` for its
-- switch, `loop` and `parse_frame`, and `get_frame`; Frame the bytes that `web_socket_frame::send`
-- writes. A buffer is a list of bytes; `Outcome` says how a round leaves the switch: the loop goes
-- on, it jumps to `fetch_payload`, or the call returns. Fragments and Split show how messages in
-- several frames, or frames in several buffers, come out. Sending is `web_socket_frame` as it
-- sends: its state, and one step for each stretch of code that the lock or the order of calls
-- keeps together, `run` over steps in any order; a `send_close` comes whole, and in its steps, the
-- tests, `finalize` and `send`, with those of other calls between them. `write_queued` is not modelled: its end is an
-- event, which says whether the bytes are out, and what `is_awaiting_writeable` answers is given
-- with each step. Conserved follows the callbacks, Wire the bytes, Order and Closing the queue. A
-- callback is the number that names it. Update is `web_socket_frame::update` on a state of its
-- own: the hooks, as whether they are set, the codec and the calls made so far; `loop` is `goto
-- retry`, and what the socket gives and the hooks answer is an argument.
--
-- Http (src/vitex/network/http.cpp): Chunked has the state of the parser and a function for each
-- case of the switch of `parser::parse_decode_chunked`, falling through as it does; the buffer,
-- which is decoded in place, is the list of decoded bytes and the list of those not read yet.
-- Machine is what a body means byte by byte, Text how it is written, Download the handler of
-- `client::fetch`.
--
-- Uplinks (src/vitex/network.cpp): Entries has the state of `uplinks` and the operations of its
-- map and sets; Uplinks.antt one function for each method, whose `Answer` has the pool that is
-- left, the value that is returned and the calls of callbacks, and `run` for calls in any order.
-- The lock makes each operation one step. A name is a list of bytes, a socket or a callback the
-- number that stands for it, and a set of sockets a list in the order in which the set is read.
-- What `get_hostname` and `get_ip_port` find is part of an address. A listener may wake at any
-- time, with any socket.
--
-- Codec (src/vitex/compute.cpp): Chars has the classes of characters in the C locale; Base64, Url,
-- Hex, Number and Utf8 the operations of `codec` on texts, which are lists of bytes, each with a
-- child for its round trip. Rows of three bytes or four characters are taken at once where the
-- source collects them one by one. `strtol` is modelled for the two characters that it is given.
--
-- Stringify (src/vitex/core.cpp): Find has the searches of `stringify`, Split `pm_split` and its
-- kin, with the loop over any search, Numeric the tests for numbers, Match the patterns, Trim and
-- Affix the ends of a text. A text is a list of bytes, and the byte behind its end counts as 0
-- where the source reads it. `strstr` sees both of its texts up to their first byte 0. An
-- exception is none.
--
-- HrmCache (src/vitex/network/http.cpp): `hrm_cache`, the queue of strings kept for reuse, each
-- with the bytes that it has room for; Shrinking and Invariant are about `shrink_to_fit` and the
-- calls.
--
-- Loops and fuel. The loops over digits and words are structural. `bits` of Uint128 has as much
-- fuel as a word has digits, `bits` of Uint256 as much as a half has; `reduce`, which takes tens
-- away in `multiply`, has its number as fuel. The divisions of Uint256 and Decimal take their fuel
-- as an argument and return none where it runs out.
--
-- Splitting has a round for each character and one more; splitting at a text and matching take
-- their fuel as an argument. `update` returns none where its fuel runs out, and some fuel is
-- enough. The loop of `parse_decode_chunked` has a round for each byte and one more as fuel.
-- `parse_frame` has two rounds for a byte and 16 more as fuel; `base10_to_base_n` a round for each
-- of 64 binary digits, and none stands for a loop that has not ended.
--
-- The encodings are those of a host with the lowest byte first. An assertion that fails is taken
-- to go on, as it does in a release build.
--
-- Not modelled: the conversions of the wide integers from and to text, the conversions of decimals
-- to machine numbers, and the rest of the repository: the other helpers for texts and the other
-- codecs, the rest of the http parser and router, regular expressions, schedules, files, sockets,
-- the other protocols, scripting and the application layer.
pub mod Common
pub mod Stringify
pub mod Uint128
pub mod Uint256
pub mod Decimal
pub mod WebSocket
pub mod Uplinks
pub mod Codec
pub mod HrmCache
pub mod Http
