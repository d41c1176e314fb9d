-- ===== src/Net.antt =====
-- core/src/net: the event loops, the tokens of events, the closing of descriptors, and the operator of
-- io_uring.
pub mod Loops
pub mod Tokens
pub mod Closing
pub mod Operator
mod Examples
