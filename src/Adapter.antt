-- ===== src/Adapter.antt =====
-- The adapter between the plugin's threads and the TeamSpeak SDK: when the wakeup thread sends,
-- whom it addresses, and the identity of the connection that the threads share.
pub mod Drain
pub mod Wakeup
pub mod Connection
