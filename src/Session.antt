-- ===== src/Session.antt =====
-- TcpSession.h and TcpSession.cpp: one connection.
pub mod Types
pub mod Ops
pub mod Promises
pub mod Numbers
pub mod Writes
pub mod Stall
pub mod Frames
pub mod Hooks
