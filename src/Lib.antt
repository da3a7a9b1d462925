-- ===== src/Lib.antt =====
-- Verification library of fetch, a command line HTTP client.
--
-- The client sends requests over HTTP, gRPC and WebSocket, resolves names itself, and keeps state
-- between runs: cookies of named sessions, and the HTTP/3 endpoints of origins. This library models the
-- parts that decide something by themselves; the sockets, files, timers and client libraries between
-- them are not modelled. A byte or a code point is a natural number, a text is the list of its bytes,
-- and an error that the source tells apart by its text is a constructor of its own.
--
-- - Grpc.Framing (src/grpc/framing.rs): `frame`, `unframe`, `read_frames` and the `FrameDecoder`, whose
--   `push` takes the body of a response chunk by chunk. A round of its loop is a function from the
--   decoder and the chunk to the rest of the chunk; each round takes a byte, so the length of the chunk
--   is fuel enough for the loop. Framing.Feed and Framing.Ready relate a chunk to its single bytes.
-- - Grpc.Wire and Grpc.Reflection (src/grpc/reflection.rs): the codec of protocol buffer fields, and the
--   parsers of the reflection service on top of it. A cursor `&mut &[u8]` is the rest of the bytes. A
--   loop over fields has the length of the message as its fuel, which each field shortens; the loop of
--   `read_varint` runs over the ten shifts below 64.
-- - Dns.Wire (src/dns/wire.rs): names with their compression pointers, and queries. At most 128 pointers
--   are followed and each label goes forward, so 130 rounds for each byte of the packet, and 130 more,
--   are enough.
-- - Dns.Response (src/dns/wire.rs): `parse_response`, with the checks of header and question, the
--   answers, and the loop over aliases. Each round of it but the last finds the target of another
--   answer, so one round more than there are answers is enough.
-- - Net.Addrs (src/net.rs): the lists of addresses of a host and the queue of connection attempts.
-- - Http.Http3Cache (src/http/http3_cache.rs): the candidates of a shard, and `update_shard` as a
--   function from what the file held to what it holds, where locking and each file operation succeed.
-- - Duration (src/duration.rs): `parse_duration_interval` and `format_go_duration`, over code points, with
--   the checks of the 128-bit arithmetic. A duration is its number of nanoseconds, and the length of the
--   text is the fuel of the loop over its parts, each of which takes a character.
-- - Output (src/core.rs): the printer and its styles, over code points.
-- - Format.Sse (src/format/sse.rs): the formatter of event streams, which takes a text character by
--   character, and writes to the printer of Output. JSON is a data type of the model; what the JSON
--   library parses and how it writes a text are parameters. Sse.Lines says what the lines of a text are.
-- - Websocket.Editor and Websocket.Input (src/websocket/interactive.rs): the line editor, and the keys that
--   the bytes of the terminal stand for. Each round of the loop takes a byte, so the length of the input
--   is fuel enough. Drawing is not modelled.
-- - Dns.Svcb (src/dns/svcb.rs): service binding records, their parameters, and how both are shown. Each
--   label, parameter and protocol takes a byte, so the length of the data is fuel enough.
-- - Http.Http3Cache.AltSvc (src/http/http3_cache.rs): `Alt-Svc` headers, as the texts of their values. What the
--   URL library parses is a parameter. Written is the header that lists alternatives as servers do.
-- - Http.Http3Cache.Global (src/http/http3_cache.rs): pruning the whole cache, over a tree of what the file
--   system says of each name. What is pruned is the list of the files that are removed.
-- - Dns.Svcb.Lookup (src/dns/svcb.rs): data in the generic notation, and the records of an answer over
--   HTTPS or UDP. Texts are lists of code points there.
-- - Dns.Svcb.Ipv6 (src/dns/svcb.rs): how addresses are shown.
-- - Http.Retry (src/http/retry.rs, src/duration.rs): the delays of retries, timeout budgets, and what a
--   redirect leads to. A duration is its number of nanoseconds; the jitter, which the source draws from
--   a random source with floating-point numbers, and the URL library's join are parameters.
-- - Cli.Tokenize (src/cli/from_curl.rs): the words of a curl command. A loop of the source is a mode of
--   the tokenizer, and looking at the next character is a mode of its own behind a backslash.
-- - Auth.Digest (src/auth/digest.rs): quoted strings, hexadecimal digits and the names of algorithms.
-- - Session (src/session.rs): the merge of the cookies of two processes. The time library's parser is a
--   parameter, and one time serves for all cookies of a merge, where the source asks for each.
-- - Common: lists with native lengths, results, words, bit operations, UTF-8 and sorted maps.
--
-- Not modelled: what runs in the client libraries (hyper, h2, h3, rustls, cookie_store, the compression
-- and image decoders), the terminal, and every part that only passes values between those.
pub mod Common
pub mod Grpc
pub mod Dns
pub mod Net
pub mod Http
pub mod Cli
pub mod Session
pub mod Auth
pub mod Duration
pub mod Output
pub mod Format
pub mod Websocket
