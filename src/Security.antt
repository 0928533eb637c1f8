-- ===== src/Security.antt =====
-- src/sample/security: the cipher for credentials, with the base64 and the UTF-8 that it is built on, and the
-- redaction of logs.
pub mod Base64
pub mod Utf8
pub mod Crypto
pub mod Regex
pub mod LogFilter
