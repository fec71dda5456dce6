-- ===== src/Buffers.antt =====
-- util/hash_queue.h and bufmgr/: the queues of frames, the two-queue eviction and the buffer manager.
pub mod HashQueue
pub mod Queues
pub mod Calls
pub mod Frames
pub mod Pool
pub mod Sound
pub mod Strategy
pub mod Fix
pub mod Unfix
pub mod Evict
pub mod Load
pub mod Misses
pub mod Start
