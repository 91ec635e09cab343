-- ===== src/QuotaCache.antt =====
-- quota-cache.mjs: the cache of the quotas that the providers report, for one provider. Values has what
-- is read of a provider and how it ages, Cache the calls and the ends of the probes.
pub mod Values
pub mod Cache
pub mod Served
pub mod Probes
mod Tests
