-- ===== src/Cache.antt =====
-- src/cache: the response cache and the keys it is searched by.
pub mod Key
pub mod Lru
mod Tests
