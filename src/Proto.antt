-- ===== src/Proto.antt =====
-- ad/AdPlayPolicy.proto and what protoc generates from it, ad/AdPlayPolicy.pb.h and
-- ad/AdPlayPolicy.pb.cc.
pub mod Types
pub mod Loop
pub mod Fields
pub mod Reads
pub mod Kinds
pub mod Writable
pub mod Sizes
pub mod Leaves
pub mod Total
pub mod Ends
pub mod PlayTime
pub mod AdPlay
pub mod AdPlayPolicy
pub mod AdFields
pub mod Ad
pub mod Result
