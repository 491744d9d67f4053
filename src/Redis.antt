-- ===== src/Redis.antt =====
-- common/db/specialdb/redis.go: the commands that a program sends to a Redis server over a pool of
-- connections, and the lock that it makes of them.
mod Script
mod Pool
mod Commands
mod Locking
mod Exclusion
mod LikeDeletes
mod Samples
