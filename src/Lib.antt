-- ===== src/Lib.antt =====
-- The verification library of itch-parser: the feed readers, the parser of ITCH 5.0 messages, the
-- book engine and its snapshots, the pipelines that join them, and the routes that serve the
-- snapshots. The benchmarks build workloads for these parts.
--
-- A buffer of a frame or a packet goes from a feed reader to the parser, which gives at most one
-- message; the engine applies it to its order index, its books and its instruments, counts it, and
-- publishes a snapshot now and then, which the REST server reads. The files:
--
-- - Prelude: numbers, lists, bits, and `Result`, how a call ends. Exceptions are values, and so is
--   undefined behaviour: a read out of bounds, a division by zero.
-- - Wire: include/itch/byte_order.h and `read_alpha` of src/parser.cpp, with their writers. A
--   pointer is the list of the bytes behind it.
-- - Messages: include/itch/messages.h and include/itch/price.h.
-- - Parser: src/parser.cpp, a function for each function of the source. Parser.Encode is the wire
--   format, written from the layout; Parser.RoundTrip reads it back; Parser.Outcome treats every
--   buffer.
-- - Map, TextMap: the standard maps, as lists of entries in iteration order. The iteration order
--   of an unordered map is not specified; here a new key comes last.
-- - Book: include/itch/order_book.h, include/itch/order_record.h and the functions of
--   src/book_engine.cpp on one book. A cached pointer to the best level is the key of its map
--   node.
-- - Engine: the handlers of src/book_engine.cpp over `Core`, the fields that they use. The three
--   handlers that take shares off an order have the same body and are `reduce_order`; `handle` is
--   the visit of the variant. Engine.Slots sums the live orders of a price of a side of a book,
--   Engine.Consistency compares the books with these sums, Engine.Order is about the order of the
--   levels and the cached tops, Engine.Effects about the order index and the counters,
--   Engine.Digits about the decimal spelling of a number.
-- - Snapshot: include/itch/snapshot.h and `build_snapshot` of src/book_engine.cpp. The type
--   `double`, with the conversion of a price, is a parameter, and so is the clock.
--   Coverage and Index are about the symbols, Origin about the levels.
-- - Publish: `apply`, `maybe_publish_snapshot` and `set_pipeline_complete` of src/book_engine.cpp,
--   and src/snapshot_publisher.cpp, whose atomic pointer is a field. Age is about when a snapshot is
--   published, Shown about what it holds.
-- - Ladder: include/itch/price_ladder.h. `lower_bound` of the standard library is the first
--   level that is not better; Ladder.Adds and Ladder.Removals compare one operation of the map
--   ladder and the flat ladder, Ladder.Equivalence whole sequences. Ladder.Array is the array
--   ladder, for a side, a number of slots and a tick: Slots counts the occupied slots, Best,
--   Emptied and Writes follow the best one through a write, Tracked through any sequence, Visits
--   is `for_each`; Agreement, Steps, Reference, Sequence and Whole compare it with the map
--   ladder, Orders and Sizes the numbers of orders and the sizes where shares may be left behind.
--   Observers is about what the clients of the other two see.
-- - Udp: src/udp_feed_reader.cpp. What the calls of `recvfrom` meet is a parameter, a list; of a
--   packet, the first 2048 bytes are stored.
--   Packets is about packets that fit, Cut about longer ones, Delivery and Safety about
--   `next_message`, Sockets about the constructors and the destructor, over the open descriptors.
-- - File: src/feed_reader.cpp. `read` is a parameter; RegularFile states what POSIX promises of it.
--   File.Outcome is about any contents, File.Descriptor about opening and closing.
-- - Pipeline: src/main.cpp. The file mode is a function; Pipeline.FileMode is about files of whole
--   frames, Pipeline.Termination about any file. Pipeline.Live is the live mode, a step relation of
--   the receive thread and the engine thread; the queue of moodycamel is a parameter, `Fifo`, and so
--   is the feed reader, of which `udp_reader` is the one of the source. Conserve is about the
--   messages on their way, Processed about the engine, Shutdown and Drain about the UDP reader: how
--   its loop does not end, and how the engine thread catches up with it.
-- - Rest: src/rest_server.cpp. A handler is a function of the request and of the publisher. `dump` of
--   the JSON library, which may throw, and the operations of `double` are parameters. Rest.Numbers is about the query's `depth`, Rest.Books
--   and Rest.Top about the two book routes over the engine's snapshots, Rest.Listing about the other
--   two.
-- - Bench: bench/. The benchmark library's loop is a number of rounds; the generator and the
--   distributions of the standard library are a parameter, `Random`, and so are the histograms of
--   the recorder. Bench.Draws has the vectors of live orders, Bench.Loop the timed loop.
--   Bench.Shootout is bench/bench_ladder_shootout.cpp: Workload and Live are about the steps and
--   the live orders, Rounds about the loops, Agreement about the three ladders. Bench.Replay is
--   bench/bench_replay.cpp, built without the recorder, with Tallies about its counts and Frames
--   about whole files. Bench.Mixed is bench/bench_mixed_workload.cpp: Prices is about the drawn
--   prices, Synth the synthetic mix, with Admissible, Built and Pass about the messages, the loop
--   that builds them and the pass over them, Capture the replay of a file. Bench.Orders is
--   bench/bench_book_engine.cpp, with Index, Rounds, Replace and Delete about the orders that stay
--   live. Bench.Buffers is bench/bench_parser.cpp, Bench.Snapshots bench/bench_snapshot.cpp, and
--   Bench.Recorder bench/hdr_recorder.h.
-- - Tests: the theorems at concrete inputs.
--
-- Bounds: numbers are natural numbers with the wrap-around of the source's unsigned types written
-- out; signed ones are integers whose casts fail where they do not fit. `read_exact` has fuel for
-- one turn for each missing byte, which is enough since every turn reads a byte or ends; the loop of
-- the file mode has fuel for one turn more than there are frames, or than there are bytes, which is
-- enough since every turn takes a frame's prefix from the file or ends. The replay and the loading
-- of a capture have the same fuel.
--
-- Not modelled: the HTTP server and the JSON library behind src/rest_server.cpp, the reading of the
-- environment and the prints of src/main.cpp, `log_summary`, the times and the prints of the
-- benchmarks, and the tests. These are input and output, calls of other projects' libraries, or
-- measurements.
pub mod Prelude
pub mod Wire
pub mod Messages
pub mod Parser
pub mod Map
pub mod Book
pub mod Engine
pub mod TextMap
pub mod Rest
pub mod Ladder
pub mod Pipeline
pub mod Bench
pub mod File
pub mod Udp
pub mod Snapshot
pub mod Publish
pub mod Tests
