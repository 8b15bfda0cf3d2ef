-- ===== src/Tests.antt =====
-- Runs of the models on concrete inputs, and each theorem at an input where its hypotheses hold.
pub mod QueueTests
pub mod DigestTests
pub mod Md5Tests
pub mod DmTests
pub mod StoreTests
pub mod NotifyTests
pub mod RpcTests
