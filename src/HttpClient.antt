-- ===== src/HttpClient.antt =====
-- apache/http_client/http_client.cpp.
pub mod Args
pub mod SetUp
pub mod Session
pub mod Transfer
