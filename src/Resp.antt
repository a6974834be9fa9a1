-- ===== src/Resp.antt =====
-- The wire format RESP (src/cpp/server/request_handler): values, numbers, parser and serializer.
pub mod Number
pub mod Value
pub mod Parser
pub mod Serializer
pub mod Reply
