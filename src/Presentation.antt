-- ===== src/Presentation.antt =====
-- internal/iiif/presentation/v3: documents under keys, with conditional writes over HTTP.
pub mod Store
pub mod Validate
pub mod Handler
pub mod Tests
