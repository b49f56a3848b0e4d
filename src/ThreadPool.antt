-- ===== src/ThreadPool.antt =====
-- The thread pools of doc/Language/CPP/Concurency/code/src. A task is a number; a method that holds
-- its mutex from its first statement to its return is one step.
pub mod Queues
pub mod Steal
pub mod Fifo
pub mod Accumulate
