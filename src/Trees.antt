-- ===== src/Trees.antt =====
-- The directory `trees`: how files and directories become blobs, and how they are read back.
pub mod RegularFile
pub mod Directory
pub mod DirectoryTree
pub mod Pieces
pub mod RegularFileIndex
pub mod ReadCaching
pub mod ReadFile
pub mod ParallelFor
pub mod Import
pub mod ImportDirectory
