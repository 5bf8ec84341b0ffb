-- ===== src/Lib.antt =====
-- A verification library for NTONIX, a gateway in front of servers for AI inference. A request comes
-- in over HTTP, may be answered from the response cache, and else goes to one of the backends: the load
-- balancer picks it among those that the health checker holds for healthy, a pooled connection carries
-- it, and the answer may be streamed back. The configuration says which backends there are, and is
-- passed on to the balancer, the health checker, the pools and the metrics when it is reloaded.
--
-- Which file models which part (the paths are those below src/ in the repository):
-- - Config.antt, Config/Json, Config/Parse, Config/Manager, Config/CommandLine: config/config.hpp and .cpp.
--   The records are the settings; `Json` is a document as the library has parsed it, with objects under
--   their keys and, of a text, number or Boolean, what the library makes of it for each type. Config/Given
--   reads the command line by a table of the options' names. `ConfigManager` is the state, and an operation that can throw gives the state as far as it came, with the error.
--   `apply_environment_overrides`, `apply_cli_overrides`, `load` and `reload` are named as in the source;
--   the files and the environment are functions that they take.
-- - Cache/Key: cache/cache_key.hpp and .cpp; the hash function XXH64 is a parameter.
-- - Cache/Lru: cache/lru_cache.hpp and .cpp. The list has its nodes at addresses and the map has
--   addresses, so a dangling iterator is a call that gives `none`. `get_read` and `get_upgrade` are the
--   two locked stretches of `get`. Cache/Lru/Ideal states each operation as a search of the keys, and
--   Cache/Lru/Sections lets any number of threads run their locked stretches in any order.
-- - Health.antt: balancer/health_checker.hpp and .cpp. `check_backend` takes how far a probe came;
--   `handle_check_result` gives the callbacks it calls as a list. Health/Breaker is the circuit breaker
--   that it implements, as a machine of its own.
-- - Balancer.antt: balancer/load_balancer.hpp and .cpp. `select_in` is `select_backend` on the snapshot;
--   its two loops ask the health checker separately, so it takes two predicates.
-- - Pool.antt, Pool/Guard, Pool/Manager: proxy/connection_pool.hpp and .cpp. Pool/Leases runs whole calls
--   with the connections that are lent out; Pool/Tests has the interleaving of a return with a call of
--   `get_connection` that takes a pool over its limit.
-- - Metrics.antt: util/metrics.hpp and .cpp, with ratios as a numerator and a denominator.
-- - Stream.antt: proxy/stream_pipe.hpp and .cpp. The loop of `forward_stream` takes a list of turns, one
--   for each of its rounds: what the client and the backend do, and what the progress callback says.
--   Stream/Chunks has a decoder of the chunked transfer encoding, as a client has it.
-- - Forwarder.antt, Forwarder/Request, Response, Outcome: proxy/forwarder.hpp and .cpp. What the backend's
--   socket does is a function of the request that it gets. `forward` and `forward_with_streaming` take the
--   guard of the connection, and give it back with its flag.
-- - Http.antt: the messages of server/connection.hpp, and Boost.Beast's, whose header fields are the
--   interface `FieldsOf`. Http/FieldList is an implementation of it for the tests.
-- - Logger.antt, Logger/Context: util/logger.hpp and .cpp, with spdlog's loggers as the sinks and the level
--   they are set up with. A request id comes from a 64-bit random number.
-- - Metrics/Json: the text of a snapshot. How a ratio is printed is a parameter.
-- - Gateway.antt, Gateway/Wiring, Main, Pooled, Answers, Handler, Streaming: main.cpp. `Gateway` holds the parts that the
--   handlers share; `request_handler` and `streaming_handler` pass it on. A `Moment` is what the outside
--   world gives while one request is handled: clock readings, random numbers, sockets, and the health that
--   the balancer asks for a second time. Requests are handled one after another.
-- - Server/Connection, SslConnection: server/connection.cpp, server/ssl_connection.cpp, as the handlers of the
--   completions of asynchronous operations. A connection waits for one operation at a time.
-- - Server/Acceptor, HttpServer, SslServer: server/server.cpp, server/ssl_server.cpp: the start on all its
--   branches, the accept loop, the signals, the stop. Each handler is one step, so the atomics that one
--   handler reads several times have one value in it.
-- - Server/SslContext, SslManager: server/ssl_context.cpp. A context is what is set on it; what OpenSSL and the
--   file system say of a file is a parameter.
--
-- The Common folder has Boolean tests on numbers, lists, equality, machine words, texts, signed integers,
-- association lists in the place of std::unordered_map, and decimal numbers.
-- The Tests module of each part has the theorems at concrete inputs.
--
-- Numbers are natural numbers, with the wrap-around of the machine's word written out (add64, sub64,
-- add32, and `wrap` for int64). The clocks are arguments. Fuel stands in three places: the loop that evicts
-- has one unit for each node of the list, and ends by its own test before that; the digits of a number n,
-- decimal or hexadecimal, are computed with n + 1 units, and it has no more digits than that; the client's
-- reading of a chunked body takes one unit for each chunk and one for the final chunk.
--
-- Not modelled: the text of the help message, the two texts that describe a certificate, the worker threads
-- as such, and what spdlog does with a line. Sockets, timers, signals, JSON, XXH64, OpenSSL, files and the
-- environment are third-party or system code, and stand as parameters or as outcomes.
pub mod Common
pub mod Config
pub mod Balancer
pub mod Cache
pub mod Forwarder
pub mod Gateway
pub mod Health
pub mod Http
pub mod Logger
pub mod Metrics
pub mod Pool
pub mod Server
pub mod Stream
