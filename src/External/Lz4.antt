-- ===== src/External/Lz4.antt =====
-- The functions of lz4.h that blob_layer/blob_storage.cpp calls.
use dogbox.Base.{ℕ, ◌≤◌, ◌<◌, ◌≡◌, length, Bytes}
use dogbox.Base.Int.{ℤ, pos}

pub record Lz4 : Type 0 where
  -- LZ4_compressBound(inputSize)
  pub compress_bound : ℕ → ℕ
  -- LZ4_compress_default(src, dst, srcSize, dstCapacity): the bytes written to `dst`, as many as the
  -- function returns.
  pub compress_default : Bytes → ℕ → Bytes
  -- LZ4_decompress_safe(src, dst, compressedSize, dstCapacity), of `src` and of `dst` before: what it
  -- returns, which is below 0 if `src` is malformed, and `dst` afterwards.
  pub decompress_safe : Bytes → Bytes → ℤ × Bytes

-- LZ4_MAX_INPUT_SIZE
abbrev pub max_input_size : ℕ
max_input_size = 0x7e000000

pub record IsLz4 (L : Lz4) : Type 0 where
  -- "or 0, if input size is incorrect (too large or negative)"
  pub bound_too_large : (size : ℕ) → max_input_size < size → L.compress_bound size ≡ 0
  pub length-compress :
      (source : Bytes) (capacity : ℕ) → length (L.compress_default source capacity) ≤ capacity
  -- Compression succeeds if the capacity is at least the bound, and decompression into a buffer of
  -- the original size restores the source.
  pub decompress-compress :
      (source target : Bytes)
      → length source ≤ max_input_size
      → length target ≡ length source
      → L.decompress_safe (L.compress_default source (L.compress_bound (length source))) target
        ≡ (pos (length source), source)
