-- ===== src/Pools.antt =====
-- include/coroute/util/object_pool.hpp and include/coroute/net/connection_pool.hpp: pools of objects
-- that are used again.
mod Objects
mod Handles
mod Bags
mod Buffers
mod Connections
mod Counters
mod Tests
