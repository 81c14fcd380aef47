-- ===== src/Lib.antt =====
-- NwLab, an HTTP server and proxy on epoll: buffers, string helpers, HTTP, configuration, files,
-- pipes, sessions, connections, listeners, the event loop.
--
-- Paths are from the root of the repository.
--
-- Parts. Bytes from a socket come in as buffers (src/utils/xps_buffer.c); a pipe (src/core/xps_pipe.c)
-- queues them in a buffer list between its source and its sink. A session (src/core/xps_session.c) has
-- five ends of pipes, to its client, its upstream and a file, and the buffers on their way. It gives
-- the first buffer of a client to the request parser (src/http/), which scans the block with two state
-- machines, one for the request line and one for each header line, marks pointers into it, and cuts
-- the marked parts out as strings (src/utils/xps_utils.c). Requests and responses are written by
-- serialising the header list into a buffer. What a request is answered with is looked up in the
-- configuration (src/config/xps_config.c): the server block and the route, and with it a file
-- (src/disk/xps_file.c), a directory, an upstream or a redirection. A file is the source of a pipe,
-- and has its type by its extension (src/disk/xps_mime.c). The event loop (src/core/xps_loop.c) goes
-- over the pipes and calls the handlers of the ends that are ready, then those of the descriptors. A
-- descriptor belongs to a connection (src/network/xps_connection.c), whose two ends move the bytes
-- between its socket and its pipes, or to a listener (src/network/xps_listener.c), which makes a
-- connection and a session for each client that waits.
--
-- Files.
--   Prelude, Memory, Text, Vec: what the parts share. A computation that can go wrong is an `Exec`:
--     `done` with its value, `abort` for a failed assertion, `fault` for an access outside a block or
--     through NULL. Text and Memory hold the functions of the C library that the code calls.
--   Status: the return codes of src/xps.h.
--   Utils: the string and path functions of src/utils/xps_utils.c. Vec: its `vec_filter_null`.
--   Buffer, Buffer/Lists: src/utils/xps_buffer.c. `data` is the block, `pos` an offset into it, a list
--     is a list of buffers in which NULL is `none`. Buffer/Queued is its specification, a queue of
--     bytes.
--   Http/State: the types of src/http/xps_http.h and src/http/xps_http_req.h. A pointer into the
--     buffer is an offset, NULL is `none`.
--   Http/Scan: the loop of both parsers; Http/RequestLine and Http/HeaderLine: their states, one
--     function per state; Http/Headers: the header list and its serialisation; Http/Request and
--     Http/Request/Create: src/http/xps_http_req.c; Http/Response: src/http/xps_http_res.c.
--   Disk/Mime: src/disk/xps_mime.c. Disk/File: src/disk/xps_file.c, with what `realpath`, `stat`,
--     `fopen` and `fread` answer as parameters. Disk/Directory: src/disk/xps_directory.c, the HTML
--     listing of a directory, where a `System` answers `opendir`, `readdir`, `stat` and the texts of
--     times and sizes.
--   Core/Pipe: src/core/xps_pipe.c. Pipes, sources and sinks are structs in a store by their
--     addresses; a struct that was freed is not there, and to reach for it is a fault.
--     Core/Pipe/Transfer moves bytes; Core/Pipe/Links says what it means that a pipe and its ends know
--     each other; Core/Pipe/Keeps what stays of the ends while the store changes.
--   Config: src/config/xps_config.c. Config/Parse reads JSON through an interface `Json` of what the
--     JSON library answers, and with every allocation as a parameter, so that a string of a list may
--     be NULL; the lookup works on a configuration without such a NULL; Config/Listeners is the list of all listeners; Config/Find and
--     Config/Resolve are `xps_config_lookup`, with `stat` and `realpath` as parameters.
--   Core/Session: the handlers of src/core/xps_session.c that move bytes, close and destroy.
--     Core/Session/Respond sets a response as the buffer for the client; Core/Session/Serve is
--     `session_process_request`, where an `Env` holds the configuration, the answers of the operating
--     system and of the allocations, the listing of a directory and the connection to an upstream.
--     Core/Session/Accept is the creation of a session and the handler of its client's bytes;
--     Core/Session/Accept/Joined says what it means that pipes join a session to its client.
--   Core/Loop: src/core/xps_loop.c. `handle_pipes` works on any `System`, a state that holds the store
--     of the pipes with the callbacks of their ends; its fuel bounds the rounds of the pass, which
--     the code does not bound where a callback creates pipes. Core/Loop/Nulls is `filter_nulls`.
--     Core/Loop/Events: the events of descriptors, attached, detached and dispatched, with what
--     `epoll_ctl` and `epoll_wait` answer as parameters.
--   Network/Structs: the structs of src/network/ and the lists of src/core/xps_core.h, by their
--     addresses. Network/Invariant says when they are sound; Network/Kept what stays while the pipes
--     change. Network/Connection: src/network/xps_connection.c, creation, destruction and the handlers
--     of the two ends, with what `recv`, `send` and `epoll_ctl` answer as parameters.
--     Network/Listener: src/network/xps_listener.c, where `accept` is the list of the clients that
--     wait. Network/Dispatch: the dispatch of src/core/xps_loop.c with the callbacks of connections
--     and listeners, which are told apart by the struct behind the pointer of the event.
--
-- Conventions. Characters are numbers below 256, strings have no NUL inside. What malloc, realloc and
-- the growth of a vector answer is a parameter: a Boolean, or a function from the number of the call.
-- Freeing memory is the end of a value's use, and only the store of the pipes, the connections, the
-- listeners and the events of the loop model it; the log lines are not modelled. The loop over the
-- headers runs on fuel, the length of the block and one: every header line that another follows moves
-- the position on within the block.
--
-- Not modelled: the calls that open, bind and connect sockets and look up addresses, so that the
-- creation of listeners and of upstreams is left out (src/network/xps_upstream.c and
-- `xps_listener_create`), and the destruction of the whole core with its creation and start
-- (src/core/xps_core.c); a whole round of `xps_loop_run`, whose two parts, the pass over the pipes and
-- the turn through the events, stand on different states; `strrev`, `connection_read_handler` and
-- `connection_write_handler`, which nothing calls; the command line and the log; `main`; the JSON and
-- the vector library, which are third-party code; the early demonstration programs.
pub mod Prelude
pub mod Status
pub mod Memory
pub mod Network
pub mod Text
pub mod Vec
pub mod Utils
pub mod Buffer
pub mod Http
pub mod Disk
pub mod Core
pub mod Config
