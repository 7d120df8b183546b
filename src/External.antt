-- ===== src/External.antt =====
-- The libraries that the program calls, as records of their functions, and what their
-- documentation promises, as records of laws.
pub mod Sqlite
pub mod Lz4
pub mod FileSystem
pub mod Listings
