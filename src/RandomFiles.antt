-- ===== src/RandomFiles.antt =====
-- common/create_random_file.h and common/create_randomness.h, with create_file of
-- common/file_descriptor.h: files and buffers of random bytes.
pub mod Directory
use dogbox.Base.{
  ℕ, zero, suc, ◌+◌, ◌-◌, ◌≤◌, ◌<◌, min, ◌≡◌, refl, ◌∙◌, Bool, true, false, [], ◌++◌, ltb,
}
use dogbox.Base.{
  if◌then◌else◌, arith, Bool-cases, inl, inr, length, length-append, Bytes, Result, ok, throw,
  to_do, out_of_fuel, ◌>>=◌, guard, ◌>>◌,
}
use dogbox.Base.Int.{ℤ, pos, negsuc}
use dogbox.External.FileSystem.{File}
use dogbox.FileDescriptor.{open_file_for_reading}
use dogbox.Ownership.FileDescriptor.{FileDescriptor}

-- What the calls return, in the order of the program: `read` of a number of bytes from the random
-- device, with these bytes of the buffer, and `write` of them, with those that the file then has behind
-- the others.
pub record Device : Type 0 where
  pub read : ℕ → ℕ → ℤ × Bytes
  pub write : ℕ → Bytes → ℤ × Bytes

-- The result of `open(name.c_str(), O_RDWR | O_CREAT | O_TRUNC, 0555)` is given.
unfoldable pub create_file : ℤ → Result FileDescriptor
create_file (negsuc n) = throw to_do
create_file (pos fd) = ok (record { handle = pos fd })

-- `if (result < 0)`
abbrev not_negative : ℤ → Bool
not_negative (pos n) = true
not_negative (negsuc n) = false

abbrev pub buffer_size : ℕ
buffer_size = 0x10000

module _ (D : Device) where
  -- One round of the loop in `create_random_file`: what the file has afterwards.
  unfoldable pub copy_some : ℕ → ℕ → Bytes → Result Bytes
  copy_some i reading content =
      let (read_result, buffer) = D.read i reading in
      let (write_result, appended) = D.write i buffer in
      guard (not_negative read_result) to_do
      >> (guard (not_negative write_result) to_do >> ok (content ++ appended))

  -- The loop, on fuel: each round counts a byte at least as written.
  unfoldable pub create_loop : ℕ → ℕ → ℕ → ℕ → Bytes → Result Bytes
  unfolding copy_some
  create_loop zero i written size content =
      if ltb written size then throw out_of_fuel else ok content
  create_loop (suc fuel) i written size content =
      let reading = min buffer_size (size - written) in
      elim (ltb written size) [
        | false ↦ ok content
        | true ↦ copy_some i reading content >>= λ content'.
            create_loop fuel (suc i) (written + reading) size content'
      ]

  -- What the file has afterwards. The random device is opened as `random`.
  unfoldable pub create_random_file : ℤ → File → ℕ → Result Bytes
  unfolding create_loop create_file
  create_random_file file random size =
      create_file file >>= λ _. open_file_for_reading random >>= λ _. create_loop size 0 0 size []

  -- The loop of `create_randomness`, with the bytes before the pointer `into.data() + written`.
  unfoldable pub fill_loop : ℕ → ℕ → ℕ → ℕ → Bytes → Result Bytes
  fill_loop zero i written size content = if ltb written size then throw out_of_fuel else ok content
  fill_loop (suc fuel) i written size content =
      let reading = size - written in
      let (read_result, bytes) = D.read i reading in
      elim (ltb written size) [
        | false ↦ ok content
        | true ↦
            guard (not_negative read_result) to_do
            >> fill_loop fuel (suc i) (written + reading) size (content ++ bytes)
      ]

  unfoldable pub create_randomness : File → ℕ → Result Bytes
  unfolding fill_loop
  create_randomness random size = open_file_for_reading random >>= λ _. fill_loop size 0 0 size []

  -- A device and a file that always take part whole.
  pub record IsWhole : Type 0 where
    pub read : (i n : ℕ) → (bytes : Bytes) × (D.read i n ≡ (pos n, bytes)) × (length bytes ≡ n)
    pub write : (i : ℕ) (bytes : Bytes) → D.write i bytes ≡ (pos (length bytes), bytes)

  module _ (W : IsWhole) where
    copy_some-IsWhole :
        (i reading : ℕ) (content : Bytes)
        → (content' : Bytes) × (copy_some i reading content ≡ ok content')
          × (length content' ≡ length content + reading)
    unfolding copy_some
    copy_some-IsWhole i reading content =
        let (bytes, read, size) = W.read i reading in
        (
          content ++ bytes,
          rw (read, W.write i bytes) refl,
          omega (arith, size, length-append content bytes),
        )

    create_loop-step :
        (fuel i written size : ℕ) (content content' : Bytes)
        → written < size
        → copy_some i (min buffer_size (size - written)) content ≡ ok content'
        → create_loop (suc fuel) i written size content
          ≡ create_loop fuel (suc i) (written + min buffer_size (size - written)) size content'
    unfolding create_loop
    create_loop-step fuel i written size content content' h e = ground (arith, h, e)

    create_loop-end :
        (fuel i written size : ℕ) (content : Bytes)
        → size ≤ written
        → create_loop fuel i written size content ≡ ok content
    unfolding create_loop
    create_loop-end zero i written size content h = ground arith
    create_loop-end (suc fuel) i written size content h = ground (arith, h)

    create_loop-length :
        (fuel i written size : ℕ) (content : Bytes)
        → length content ≡ written
        → written ≤ size
        → size ≤ written + fuel
        → (content' : Bytes) × (create_loop fuel i written size content ≡ ok content')
          × (length content' ≡ size)
    create_loop-length zero i written size content h below f = (
      content,
      create_loop-end zero i written size content (omega (arith, f)),
      omega (arith, h, below, f),
    )
    create_loop-length (suc fuel) i written size content h below f =
        elim (Bool-cases (ltb written size)) [
          | inr over ↦
              let over' : size ≤ written = ground arith in
              (
                content,
                create_loop-end (suc fuel) i written size content over',
                omega (arith, h, below, over'),
              )
          | inl more ↦
              let more' : written < size = ground arith in
              let reading = min buffer_size (size - written) in
              let (content', copied, longer) = copy_some-IsWhole i reading content in
              let (all, done, whole) =
                create_loop-length fuel (suc i) (written + reading) size content'
                  (omega (arith, h, longer)) (omega (arith, below)) (omega (arith, f, more')) in
              (
                all,
                create_loop-step fuel i written size content content' more' copied ∙ done,
                whole,
              )
        ]

    -- Where the file can be created, the random device opens, and every read and every write is whole,
    -- the file has as many bytes as were asked for.
    pub create_random_file-length :
        (fd : ℕ) (random : File) (size : ℕ)
        → random.opens ≡ true
        → (content : Bytes) × (create_random_file (pos fd) random size ≡ ok content)
          × (length content ≡ size)
    unfolding create_random_file create_file open_file_for_reading
    create_random_file-length fd random size opens =
        let (content, done, whole) =
          create_loop-length size 0 0 size [] refl (omega arith) (omega arith) in
        (content, rw opens done, whole)
