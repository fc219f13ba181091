-- ===== src/Handler.antt =====
-- internal/iiif/image/v3/handler/handler.go and types/info.go: the canonical URL of a request, the
-- info document, derivatives with their cache, and the invalidation.
pub mod Urls
pub mod Canonical
pub mod Derivatives
pub mod Clients
pub mod Images
pub mod Responses
pub mod Derivation
pub mod Invalidation
pub mod Serve
pub mod Invalidated
pub mod Bounds
pub mod Hits
pub mod InfoDocument
pub mod Tests
