-- ===== src/Lib.antt =====
-- dogbox keeps directory trees in a content-addressed store and serves them as a read-only file
-- system. A blob is stored once, compressed, under its SHA-256 digest (blob_layer). A file is cut
-- into pieces of 1 MiB, each of which is a blob; the digests of the pieces and the rest of the file
-- are the blob of the file's index. The entries of a directory, each with the digest of a file's
-- index or of another directory, are a blob too (trees). The operations of the file system resolve a
-- path from the digest of the root and read the pieces of open files (fuse_adaptor). A second file
-- system serves a directory that it has read into memory (in_memory_fuse_frontend).
--
-- Which file is about which part:
-- - HashCode: blob_layer/hash_code.h and hash_code.cpp: to_string, parse_sha256_hash_code.
-- - BlobStorage: blob_layer/blob_storage.cpp: store_blob, load_blob (the overload that fills a vector
--   is load_blob_into), initialize_blob_storage, count_blobs, and open_sqlite of blob_storage.h.
--   with_statement is the scope of a statement's handle, and BlobStorage/Statements follows the
--   statements to the end of the database's handle.
--   BlobStorage/Interface has the part that the other components use, as a record of operations with
--   their laws. BlobStorage/Specification says what a client is promised, as a map from digests to
--   blobs, and BlobStorage/Refinement compares the two.
-- - Trees/RegularFile, Directory, RegularFileIndex, ReadFile, ParallelFor, Import: the files of the same
--   names in trees/; ParallelFor is the function parallel_for of trees/import.cpp.
-- - Trees/ImportDirectory: from_filesystem_directory of trees/import.cpp. Trees/DirectoryTree has the
--   trees of directories that the store then holds. ImportDirectory/Identity is about which directories
--   have one digest.
-- - FuseAdaptor: fuse_adaptor/operations.cpp: find_entry and resolve_path, in Attributes
--   adaptor_getattr and adaptor_readdir, in Files adaptor_open, adaptor_release and adaptor_read.
--   Mounted puts import and operations together, and Requests any sequence of requests.
--   StatValues has the attributes and the return codes that both file systems are to give, as numbers.
--   FuseAdaptor/Session is the constructor and the destructor of adaptor.h with unmount.cpp, and Table
--   the table of operations of operations.h.
-- - Paths: how both file systems split a path.
-- - InMemory: in_memory_fuse_frontend_shared/directory.h and directory.cpp: scan_directory. Its child
--   Operations is in_memory_fuse_frontend/main.cpp: hello_getattr, hello_readdir, hello_open, hello_read;
--   Main is its main, and Printing the stream operators of directory.h and directory.cpp.
-- - FrontEnds compares the two file systems over one directory: attributes, listings, reads, and what
--   they do where nothing is.
-- - Ownership: objects that own a handle and are moved, as file_descriptor of common/file_descriptor.h
--   and channel of fuse_adaptor/channel.h are. A channel that is constructed without arguments has
--   whatever handle was in its memory.
-- - FileDescriptor: common/file_descriptor.h: open_file_for_reading and read_at.
-- - RandomFiles: create_file, and common/create_random_file.h and create_randomness.h. Its child
--   Directory is common/create_random_directory.h.
-- - External: SQLite, LZ4 and the file system as parameters, with what their documentation says that
--   the program relies on. SHA-256, from OpenSSL, is a function to digests of 32 bytes that has no
--   collision among the blobs in question.
--
-- How the code is written down: a buffer, a string or a range between two pointers is the list of its
-- bytes, and a byte a number. Code that changes a state is a function from the state before to a
-- result with the state after (Base/Action); what was changed before an exception stays changed. TO_DO,
-- a failed assertion and an access out of bounds are exceptions of the model. 64-bit arithmetic wraps
-- around where the code can reach the bound.
--
-- Loops: encode_loop and decode_loop run the eight rounds of the code. read_loop has as many rounds
-- as there are bytes to read, since each round writes one at least. find_entry_loop and readdir_loop
-- have as many rounds as there are bytes, since an entry takes 34 at least. resolve_path_loop,
-- getattr_loop, the readdir_loop in memory and open_loop have a round more than the path has
-- characters, since each recursion drops one at least. decimal_loop has a round more than the number,
-- since each divides it by ten. stride has a round for each index, and
-- create_loop and fill_loop one for each byte. A directory is a finite tree as it stands while it is
-- read, so that import and scan recurse on it.
--
-- Threads: the actions of parallel_for are atomic, and an execution is any interleaving of what the
-- workers have to do. The reads of the pieces, which the code does outside of its lock, do not
-- depend on that order. An exception ends its worker, whose further indices are passed over; the
-- others go on, and are waited for. That a thread cannot be started is left out.
--
-- Not modelled: the loop of libfuse, which hands requests to the operations. A request at a path with an empty name, or a read that starts
-- behind the pieces of a file, is left out of the sequences of requests. A stream prints numbers in
-- decimal, as it does unless it is told otherwise.
pub mod Base
pub mod HashCode
pub mod External
pub mod FileDescriptor
pub mod BlobStorage
pub mod Trees
pub mod Paths
pub mod Ownership
pub mod RandomFiles
pub mod FuseAdaptor
pub mod InMemory
pub mod FrontEnds
mod Tests
