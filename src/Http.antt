-- ===== src/Http.antt =====
-- net/soehttp: requests to remote services, with retries, error texts and circuit breakers.
mod Config
mod Wire
mod Remote
mod Service
mod Retries
mod Replies
mod Copies
mod Waits
mod Errors
mod Commands
mod Clients
mod Remotes
mod Breakers
mod Calls
mod Outcomes
mod Methods
mod Samples
