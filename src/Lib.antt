-- ===== src/Lib.antt =====
-- BitLink: a server that shortens URLs.
--
-- At the start a configuration file is parsed (src/config_parser.cc), its port and locations are
-- checked (src/server_config.cc), and its locations become the registrations of the dispatcher.
--
-- The bytes of a connection are collected to requests (src/session.cc), which are parsed
-- (src/request.cc) and answered by the response of a handler (src/response.cc).
-- A request reaches a handler by its location (src/handler_dispatcher.cc), which makes the handler
-- by name (src/handler_registry.cc). The shortening handler
-- (src/handlers/url_shortener_handler.cc) reads form bodies (src/utils/http_parser.cc) and calls
-- the service (src/services/url_shortening_service.cc), which
-- validates and normalizes a URL (src/utils/url_validator.cc), draws a code that the database does
-- not have (src/utils/slug_generator.cc) and stores the link
-- (include/database/database_interface.h, src/database/sqlite_database.cc). The service for uploads
-- (src/services/file_upload_service.cc) checks the file and its name (src/utils/file_validator.cc),
-- writes it to the disk and stores its path under such a code. Answers are JSON texts
-- (src/utils/json_builder.cc), pages and the images of QR codes (src/utils/qr_generator.cc). The
-- other handlers keep entities in files (src/handlers/api_handler.cc, include/file_system.h), serve
-- files (src/handlers/static_file_handler.cc, src/mime_types.cc) or give one fixed answer.
--
-- Str          std::string as a list of bytes: find, substr, getline (Str/Lines), stoi and
--              to_string (Str/Number), regular expressions (Str/Regex)
-- StrMap       std::map with string keys, as pairs in the order of the keys
-- HttpParser   Codec: url_decode, url_encode; Form: parse_form_data; Header:
--              parse_content_disposition, extract_boundary; Multipart: parse_multipart_form
-- UrlValidator Parts: extract_domain and small functions; Normalize: normalize_url; Domain:
--              is_ip_address, is_valid_ip, is_blocked_domain; Validate: validate_and_normalize
-- SlugGenerator  generate_code, generate_unique_code
-- Models       include/models/link_data.h
-- Database     DatabaseInterface as a record of operations, and the laws IsLinkTable that its
--              clients use; Database/Sqlite: SQLiteDatabase, which fills them
-- FileValidator  Types: extensions, magic numbers and MIME types; Validate: validate_file_type;
--              Sanitize: sanitize_filename; Scan: scan_for_viruses
-- Service      Url: URLShorteningService; FileUpload: FileUploadService; Privacy:
--              truncate_ip_for_privacy
-- JsonBuilder  JSONBuilder; JsonBuilder/Escape: escape_json_string
-- Http         Session: the events of a connection; Request: Request; Response: Response
-- Handlers     UrlShortener: URLShortenerHandler; UrlShortener/PageForm: what the main page's
--              script sends, with encodeURIComponent of JavaScript over bytes; Api: ApiHandler; FileSystem: the interface of
--              its files and the laws IsFileSystem; StaticFile: StaticFileHandler; MimeTypes;
--              Simple: EchoHandler, HealthHandler, NotFoundHandler, SleepHandler
-- QrGenerator  Bitmap: generate_png, qr_to_png; Steps, Pixels and Image: what they show; Png:
--              create_simple_png, crc32; Deflate: simple_deflate, adler32; Checksums: both
--              checksums as their standards define them; Base64: base64_encode
-- Dispatch     Registry: HandlerRegistry; Dispatcher: HandlerDispatcher, whose matches
--              Dispatcher/Match describes
-- FakeFileSystem  the files in memory of src/fake_file_system.cc, which fill that interface
-- Count        how many numbers below a bound pass a test
-- Config       Syntax: NginxConfig and ToString; Lexer: ParseToken; Parser: NginxConfigParser
-- ServerConfig ParseConfig; Registrations: CreateHandlerRegistrations, and the health handler that
--              src/main.cc adds
-- Tests        concrete runs, and an engine in memory that satisfies the laws asked of SQLite
--
-- A method that changes its object takes the state and returns the new one with the result. An
-- exception or an error value is `none` or a constructor of its own. Bytes are numbers below 256;
-- the lengths and positions of texts do not wrap around, since texts are shorter than 2^64, but for
-- sanitize_filename and the size that a session expects, where the wrap-around is written out.
--
-- Parameters: the steps of SQLite's prepared statements and the opening of a file (`Engine`, with
-- the laws `IsSqlite`), the random draws (`Generator`, whose draws lie in the range asked for),
-- libqrencode, the calls of the file system (`Disk`, with the laws `IsDisk`, and `Tree`), and the
-- handlers that factories make.
--
-- Fuel: the loop of `parse_multipart_form` gets one round more than the body has bytes, and each
-- round moves forward; the parser of configurations gets one round more than its input has bytes,
-- and each token but the last takes a byte; the digits of a number take at most one round more than
-- the number. The search for a free id has as much fuel as is given, and one round more than there
-- are paths is enough; stored blocks get a round for each byte.
--
-- Not modelled: sockets, logging, threads, the real file system, whose functions are calls of
-- std::filesystem and streams, and the overflow of an `int` by the number of pixels of a bitmap; of
-- JSONBuilder, floating point values, is_valid_json, add_raw and format_json; of SQLiteDatabase,
-- the closing of the connection and its statements. The two services of the shortening handler have
-- a connection each to one database file, whose state they share here.
mod Prelude
pub mod Str
pub mod StrMap
pub mod HttpParser
pub mod Models
pub mod Database
pub mod SlugGenerator
pub mod UrlValidator
pub mod Service
pub mod JsonBuilder
pub mod Dispatch
pub mod Config
pub mod Count
pub mod Http
pub mod Handlers
pub mod QrGenerator
pub mod ServerConfig
pub mod FakeFileSystem
pub mod FileValidator
pub mod Tests
