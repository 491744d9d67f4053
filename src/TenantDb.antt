-- ===== src/TenantDb.antt =====
-- common/db/tenantdb: the data sources of tenants, the connections that are opened from them, their
-- cache behind the locks of common/keylock, and the checker of its health.
mod Urls
mod Addresses
mod Opened
mod Sources
mod Opening
mod Calls
mod Options
mod Cache
mod Removing
mod Creating
mod Samples
