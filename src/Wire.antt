-- ===== src/Wire.antt =====
-- include/chrono_cap/wire_format.hpp: the on-disk format.
pub mod Endian
pub mod Memory
pub mod Header
