-- ===== src/Codec.antt =====
-- Codecs of Python's standard library: `str.encode` and `bytes.decode`, and the URL-safe base64.
pub mod Chars
pub mod Utf8
pub mod Base64
pub mod Ascii
