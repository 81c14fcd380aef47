-- ===== src/Http.antt =====
-- http/: the parsers of the request line and of the header lines, requests, responses.
pub mod State
pub mod Scan
pub mod RequestLine
pub mod HeaderLine
pub mod Headers
pub mod Request
pub mod Response
pub mod Tests
