-- ===== src/Message.antt =====
-- ad/Message.proto and what protoc generates from it, ad/Message.pb.h and ad/Message.pb.cc.
pub mod Types
pub mod Runtime
pub mod Generated
pub mod Sizes
pub mod Laws
pub mod Total
pub mod Instance
