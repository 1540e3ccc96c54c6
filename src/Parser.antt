-- ===== src/Parser.antt =====
-- parser.go: scanning of a response head, and the reading of a response from a connection.
pub mod Fields
pub mod HeaderEnd
pub mod StatusCode
pub mod ContentLength
pub mod TransferEncoding
pub mod Headers
pub mod Chunked
pub mod Gzip
pub mod UntilEof
pub mod Direct
pub mod Buffered
