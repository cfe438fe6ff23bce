-- ===== src/Rpc/Http.antt =====
-- lib/rpc/http_server.cpp: the text helpers, requests, responses and what the server receives.
pub mod Text
pub mod Request
pub mod Response
pub mod Receive
