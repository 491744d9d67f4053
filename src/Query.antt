-- ===== src/Query.antt =====
-- tools/query: a queue of elements that goroutines share behind a lock.
mod Queue
mod Order
mod Samples
