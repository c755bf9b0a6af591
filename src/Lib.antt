-- ===== src/Lib.antt =====
-- A model of the native addon of aws-crt-nodejs (source/*.c), the bridge between Node's C interface
-- and the aws-c-* libraries.
--
-- The addon's parts: the class binder (source/class_binder.c) turns a call from JavaScript into a
-- call of a native method with typed arguments, and the conversions of source/module.c copy strings
-- and borrow buffers for it. The wrappers use both: HTTP headers (source/http_headers.c) as a bound
-- class, the input stream (source/io.c) that JavaScript fills and a native reader empties, the
-- checksums and digests (source/checksums.c, source/crypto.c), and the MQTT connection
-- (source/mqtt_client_connection.c), whose requests live until the client completes them on another
-- thread and a threadsafe function brings the result back to JavaScript. The same functions carry
-- the callbacks of HTTP connections, their manager and their streams (source/http_connection.c,
-- source/http_connection_manager.c, source/http_stream.c), and the log messages of the native
-- threads (source/logger.c).
--
-- Which file models which part:
--   Base           Booleans, lists and integers over the native numbers
--   Napi           Node's statuses and values; the calls that read a value, and aws_byte_buf_init
--                  and aws_byte_buf_clean_up, as parameters (`Napi`, `Memory`)
--   Ownership      which allocator blocks a piece of code holds: the specification of all balances
--   ByteBuf        aws_byte_buf_init_from_napi, aws_string_new_from_napi
--   ClassBinder    s_argument_parse, s_argument_cleanup; ClassBinder/Calls: s_method_call,
--                  s_constructor, s_property_getter, s_property_setter, aws_napi_method_next_argument
--   HttpHeaders    the methods of HttpHeaders, `_flatten` and the iterator;
--                  HttpHeaders/Construct: s_headers_constructor
--   InputStream    struct aws_napi_input_stream_impl with seek, read, get_status, new and append
--   Arguments      arguments that a function reads one by one, and refuses with an exception
--   Threadsafe     the wrappers of threadsafe functions of module.c (aws_napi_queue_threadsafe_function,
--                  aws_napi_dispatch_threadsafe_function, aws_napi_release_threadsafe_function)
--   Mqtt           what the requests share; Mqtt/Publish, Mqtt/Subscribe, Mqtt/Unsubscribe,
--                  Mqtt/Disconnect: one request each, with its completion; Mqtt/Deliver: messages for a
--                  subscription; Mqtt/Close: close and finalizer of the binding
--   Checksums      crc_common
--   Crypto         the hashes and the HMAC in steps; Crypto/Compute: the digests at once, and
--                  aws_napi_hmac_sha256_new
--   Logger         struct aws_napi_logger_ctx with the log writer, the queue of messages and its drain
--                  (s_napi_log_writer_write, s_threadsafe_log_call, s_threadsafe_log_finalize) and
--                  the allocator over the ring buffer
--   HttpStream     struct http_stream_binding with the callbacks for the body and the end of a stream
--   HttpConnection struct http_connection_binding: aws_napi_http_connection_new and the callbacks for
--                  setup and shutdown; HttpConnection/Options: the client's options
--   HttpManager    aws_napi_http_connection_manager_new; HttpManager/Acquire: the other functions of
--                  a manager, with aws_napi_http_connection_from_manager; HttpManager/Options: the
--                  manager's options
--   Tests          instances of the parameters, and the theorems applied to them
-- The modules below a component hold its proofs and are named for what they are about.
--
-- Code of Node and of the aws-c-* libraries is a parameter (`Napi`, `Memory`, `Engine`,
-- `HeadersApi`, `BufApi`, `FunctionApi`, `MqttApi`, `Console`, `Ring`, `StreamApi`,
-- `ConnectionApi`, `ManagerApi`, `DigestApi`), and what a theorem needs of it is a record of laws
-- (`HeadersLaws`, `AddLaws`, `BufLaws`, `FunctionLaws`, `ApiLaws`, `Running`, `RingLaws`,
-- `StreamLaws`, `ConnectionLaws`, `ManagerLaws`, `DigestLaws`, `KeyedLaws`) or a hypothesis. A call
-- that may fail answers a `Reply`; a fatal assertion and undefined behaviour are values of
-- `Outcome`. Machine integers wrap where the source's do: a size_t at 2^64 (`size_mod`), a uint32_t
-- at 2^32 (`u32_mod`).
--
-- Loops are structural: over the argument list in the class binder, over the number of rounds that
-- are left in the header loops. The loop over chunks of INT_MAX bytes in Checksums runs on fuel, one
-- more than the number of bytes, which is enough because each round takes at least one byte; the
-- loop that strips a log message runs on fuel one more than the message's length, of which each round
-- takes one byte.
--
-- Not modelled: the mutexes of the input stream and the logger (an operation, such as a log write,
-- is one step, although the logger allocates a message before it takes the mutex), the bytes of the
-- ring buffer's blocks, the assertions on the number of arguments in the methods of HttpHeaders
-- other than get_values and `_flatten`, the registration of classes and functions, reference counts
-- of header blocks and of connections, the mode in which a threadsafe function is released, the
-- response headers of a stream and the making of its binding, proxy options, the memory of native
-- strings, the server name that a connection sets in its TLS options, and the remaining files of
-- source/ (auth, HTTP messages, the MQTT client, TLS and sockets, module start-up).
pub mod Base
pub mod Napi
pub mod Ownership
pub mod ByteBuf
pub mod ClassBinder
pub mod HttpHeaders
pub mod InputStream
pub mod Arguments
pub mod Threadsafe
pub mod Mqtt
pub mod Checksums
pub mod Crypto
pub mod Logger
pub mod HttpStream
pub mod HttpConnection
pub mod HttpManager
pub mod Tests
