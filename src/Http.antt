-- ===== src/Http.antt =====
-- be/http: the HTTP client over libcurl, methods, statuses, responses and the names of headers.
pub mod Method
pub mod Curl
pub mod Client
pub mod Status
pub mod Response
pub mod Headers
mod Tests
mod HeaderListTests
