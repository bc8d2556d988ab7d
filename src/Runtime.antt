-- ===== src/Runtime.antt =====
-- The runtime helpers of common/ that the chat server builds on.
pub mod TokenBucket
pub mod KeyedExecutor
