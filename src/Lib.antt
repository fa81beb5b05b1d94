-- ===== src/Lib.antt =====
-- The C++ back end of the scanner demo (be/), which finds, downloads and keeps JDBC driver files and
-- scans tables through them.
--
-- The parts and their modules, with what they model of each source file:
--
--   Driver.FileName        be/runtime/jdbc_driver_manager.cpp: `_parse_from_file_name` and
--                          `_generate_driver_location`, on byte strings.
--   Driver.Manager         be/runtime/jdbc_driver_manager.{h,cpp}: `JDBCDriverManager`. `init` and
--                          `get_driver_location` pass the manager and the file system on. The shared
--                          pointers of `_entry_map` are numbers of entries in `heap`. The block under
--                          `_lock` is `reserve`, what follows it is `finish`. Interleaving has calls
--                          that run at the same time, each in a thread, as sequences of their locked
--                          steps; Registry the abstract view: a map from names to a checksum and a
--                          location, of which Interleaving.Serial has atomic calls. A step under
--                          `download_lock` is the effect of a download on the manager; downloads of
--                          different entries may overlap in time. Kept has the driver files on the disk
--                          behind a sequence of calls with their downloads.
--   Driver.Manager.Locks   the same calls with the mutexes: taking `_lock` or a `download_lock`, and leaving
--                          the block behind it, are steps of their own; Refinement maps them to the steps
--                          of Interleaving.
--   Driver.Started         the manager's start: `getInstance`, `init`, then interleaved calls.
--   Driver.Swept           when the first `init` returns.
--   Driver.Lost            a run of calls between two starts in one directory.
--   Util.Download, Util.Md5  be/util/download_util.cpp, be/util/md5.cpp: `DownloadUtil::download` and the
--                          hexadecimal text of `Md5Digest`. The stream is closed where the download
--                          returns, by a DeferOp (be/util/defer_op.h); that is part of `fetch`.
--   Http.Client            be/http/http_client.{h,cpp}: `HttpClient`, with `execute` and
--                          `execute_with_retry`. Info tells of a transfer; HeaderList has the memory
--                          of `_header_list`.
--   Http.Curl              libcurl: a record of its calls, and what the client relies on of them.
--   Http.Method            be/http/http_method.{h,cpp}.
--   Http.Headers           be/http/http_headers.{h,cpp}: the names of header fields.
--   Fs                     be/fs/fs_util.h over a map from paths to files and directories.
--   Status                 be/common/status.h, be/common/statusor.h: the values.
--   Status.Memory          be/common/status.h: the char arrays behind `_state`, and which uses of the
--                          five special member functions are safe; Copies, of be/common/statusor.h
--                          too, has the copies that the program makes.
--   Http.Status, Http.Response  be/http/http_status.{h,cpp}, be/http/http_response.{h,cpp}.
--   Runtime.Types          be/runtime/types.{h,cpp}, be/runtime/primitive_type.h and the lengths of
--                          be/common/constexpr.h. A DCHECK aborts in a debug build only.
--   Runtime.State          be/runtime/runtime_state.h.
--   Table.Descriptors      be/table/descriptors.{h,cpp}, be/common/mock_t_table_descriptor.h.
--   Chunk                  be/common/chunk.h, be/common/buffer.{h,cpp}, be/column.
--   Udf.Start, Udf.Helper  be/udf/java_udf.{h,cpp}: the start of the virtual machine, `JVMFunctionHelper`
--                          and `JVMClass`. A reference is a number, 0 a null pointer. Udf.Refs has the
--                          special member functions of JavaGlobalRef and JVMClass.
--   Scanner                be/scanner/jdbc_scanner.{h,cpp}: `JDBCScanner`. Setup and Columns have `open`,
--                          Reading has `get_next` and `close`; Returns the scanners that the parts
--                          of `open` can leave.
--   Scan.DataSource        be/datasource/connector.h, be/datasource/jdbc_connector.{h,cpp}.
--   Scan.ChunkSource, Scan.Batch  be/operator/connector_scan_operator.{h,cpp}, over any data source, and
--                          be/source/chunk_source.{h,cpp}.
--   Scan.Operators         be/operator/source_operator.h, be/operator/scan_operator.{h,cpp},
--                          be/mock_pipeline_driver.{h,cpp} and be/main.cpp.
--   Base                   Shared: lists, byte strings, integers, dictionaries, decimal text, and the
--                          outcome of C++ code: a value, an exception, or undefined behaviour.
--
-- How they meet: the manager lists, reads and deletes files through Fs, and calls the download, which
-- runs the client; `main` starts the manager and has the pipeline driver pull a chunk, for which the scan
-- operator reads a chunk source, that one the data source, and the data source asks the manager for its
-- driver and calls Java through the scanner. Status is the result type of all. The manager takes the
-- download as a parameter, so that its theorems hold whatever the download does.
--
-- Undefined behaviour (a null or dangling pointer, a second `delete[]`) is the outcome `fault`, an
-- exception is `throws`; neither is a value of the modelled functions. Numbers are natural numbers and
-- integers; where the source's width matters it is written out (`2 ^ 64 - 1` for the size_t -1, the
-- int64_t range of `std::stol` in Base.Decimal). All loops are structural: over the files of a
-- directory, the pieces of a transfer, the bytes of a text, the rounds of `execute_with_retry`. Only two
-- loops run on fuel, and come to `unfinished` where it ends: that of `_read_chunk`, of which a theorem
-- says when some fuel is enough, and that of `get_next` in the data source, for which one round is.
--
-- Parameters: libcurl and OpenSSL's MD5 (records, with their documented behaviour as named laws; of
-- libcurl also its string lists),
-- `boost::iequals`, whether the disk takes a write, what `fclose` writes out of it, the clock,
-- JAVA_HOME, the constants of libevent and the Java Native Interface (Udf.Jni, a record of the calls that are made, with laws on exceptions alone).
--
-- Not modelled: the Java front end (fe), members that are declared without a body, log output, and
-- be/third_party, a copy of googletest. The Java calls are made by one thread. Of the file system,
-- permissions and symbolic links are not modelled, and two spellings of one path are two paths. A
-- download is one step of a thread, so that two downloads that write one temporary file at the same
-- time (Interleaving.Races shows that they can be due) are not interleaved piece by piece. The uninitialised error buffer of
-- HttpClient is an empty text, and its pointer to the callback is an argument of `execute`.
pub mod Base
pub mod Status
pub mod Fs
pub mod Http
pub mod Util
pub mod Driver
pub mod Runtime
pub mod Table
pub mod Scan
pub mod Udf
pub mod Chunk
pub mod Scanner
