-- ===== src/Dispatcher.antt =====
-- libril/ril.cpp: the daemon's side of requests, responses and unsolicited messages, and the wake
-- lock that it holds while a message waits to be read.
pub mod WakeLock
pub mod Requests
pub mod Unsolicited
