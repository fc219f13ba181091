-- ===== src/Lib.antt =====
-- Triplet: a IIIF server that answers Image API requests from sources of several kinds, with caches
-- before the sources and behind the encoder.
--
-- How the parts meet: the handler hands the path of a request to the parser, names the derivative by
-- a cache key, and asks the file cache for it; on a miss the pipeline opens the source, through the
-- multiplex, the metadata cache and the source cache, and its output is put into the file cache.
--
-- Files, the code that each models, and how:
-- - Parse (internal/iiif/image/v3/parse/parse.go): `Parse` and the parser of each segment.
--   Parse/Types has the types, Parse/Segments the decoders of a segment, Parse/Operations the
--   parsers of region, size, rotation, quality and format; Parse/Safety and Parse/Sound are about
--   what is accepted, Parse/Unordered about floats that compare false.
-- - Names: the text of region, size, rotation and the rest that `cache/keys.go` and `handler.go` both
--   write, each with its own formatters, and how the parser reads it.
-- - Handler (internal/iiif/image/v3/handler/handler.go): Handler/Urls is `canonicalImageURL`,
--   Handler/Serve `ServeHTTP`, Handler/Responses `serveInfo` and the answers, Handler/Derivation
--   `serveImage`, Handler/Invalidation the invalidation, Handler/Images the state of the handler and
--   the dimensions of an image, Handler/Clients who may invalidate, Handler/Derivatives
--   the versioned key, the tag and conditional requests. Handler/InfoDocument is types/info.go beside
--   it. Canonical, Hits, Invalidated and Bounds are the proofs.
-- - Keys (internal/cache/keys.go, format.go): `DerivativeKey` and its `itoa` and `ftoa`.
-- - FileStore (internal/cache/file.go, cache.go): `FileStore` over a file system that is a function
--   from paths to files. FileStore/Paths is `paths`, FileStore/Put has `Put`, `installWithMeta` and
--   `Delete` with an outcome for each step that the system can refuse, FileStore/Cleanup is
--   `Cleanup`; PutLaws, CleanupLaws and Report are the proofs.
-- - Storage (internal/storage): Storage has `Opener` and `Meta` of opener.go, Storage/MetaCache is
--   meta_cache.go, Storage/Multiplex is multiplex.go, Storage/Caching is caching.go.
--   Storage/File is file.go over what the system answers about links, with File/Contained for what
--   an identifier can reach. Storage/Http is http.go: origins, redirects and versions, with
--   Http/Ranges for `Open`, `Meta` and `parseContentRange` and Http/Reader for the two seekable
--   readers; Reader/Same and Redirects are the proofs.
-- - Presentation (internal/iiif/presentation/v3): Presentation/Store is store/store.go, Store/Files
--   the `FileStore` of store/file.go, each of whose calls is one step under its lock. Store/Abstract is
--   the map that it implements, Store/Plain what is assumed of the system, Store/Refines the
--   refinement, Store/Failed the writes that fail. Presentation/Validate is validate/validate.go;
--   Presentation/Handler and Handler/Serve are handler/handler.go, with the store as an interface,
--   and Handler/Canonical, Writes and Served are about keys, writes and what is read after them.
-- - Filepath: `filepath.Clean`, `Join` and `Rel` on rooted paths. Http: requests and responses.
-- - Limiter (internal/vips/limiter.go): `NewLimiter`, `Acquire` and the release over the number of
--   elements in the channel; Limiter/Slots has the jobs that run as a step relation.
-- - Pipeline (internal/iiif/image/v3/pipeline/pipeline.go): `resolveRegion`, `resolveSize`,
--   `CheckSourcePixels`, `scaleRegionToLoadedPage` and `chooseJP2Page`, on int64 that wrap
--   (Pipeline/Wrap); Pipeline/Inside is about their results, Pipeline/Choices has `loadAccess` and
--   `isJP2Source`, Pipeline/Pdf `singleImagePDF`; Pdf/Reads is about its table of offsets.
-- - Config (internal/config/bytesize.go): `parseByteSize`, and Cors (internal/cors/cors.go): the
--   headers of a response by the origin of the request.
-- - Text: bytes, and what the code uses of `strings`, `strconv` and `net/url` on them.
-- - Floats: float64 with its operations, `ParseFloat` and `FormatFloat`, a parameter of everything that
--   uses them; Floats/Sample is an instance with whole numbers and a NaN for the tests.
-- - Common: names of the library passed on, results, lists and integers.
-- A module Tests has runs of the code and the theorems at concrete values.
--
-- State: a method of a struct that changes it takes the state and returns it. Time is a number of
-- nanoseconds, 0 for Go's zero time, and a duration stops at the largest int64. What the system may
-- refuse is an argument, so that a theorem holds for each outcome.
-- Bounds: int64 is written out in `atoi`, `itoa`, the durations, the byte sizes and the geometry. Fuel
-- is that of the loops that write digits, 20 rounds, the size of the buffer in keys.go and enough for
-- every int64, and the 64 rounds of `pyramidScaleFactors`, which doubles a divisor of an int64.
-- Parameters: float64, SHA-256 in hex, JSON, the texts of times and of errors, `url.Parse`, IP
-- addresses, the server behind HTTP, `Transform` and the decoder, and the sources.
--
-- Not modelled: what libvips does inside `Transform` and the decoder, connections and the refusal of
-- private addresses, logs and metrics, the commands, the rest of the configuration, the Presentation
-- store in MariaDB, and the source of local URLs; locks, each of whose sections is one step.
pub mod Common
pub mod Config
pub mod Cors
pub mod FileStore
pub mod Filepath
pub mod Floats
pub mod Handler
pub mod Http
pub mod Keys
pub mod Limiter
pub mod Names
pub mod Parse
pub mod Pipeline
pub mod Presentation
pub mod Storage
pub mod Text
