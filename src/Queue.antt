-- ===== src/Queue.antt =====
-- The fixed-capacity structures that carry work between threads: the typed command queue and the
-- chat line ring (two uses of one ring), the remembered return codes, and the slot that hands a
-- worker thread over.
pub mod Fifo
pub mod Ring
pub mod Command
pub mod Chat
pub mod ReturnCode
pub mod Worker
