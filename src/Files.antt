-- ===== src/Files.antt =====
-- What the program uses of Go's os.File, on the bytes of a local file: Truncate, WriteAt and ReadAt.
pub mod Laws
use extract.Common.{
  ℕ, ◌+◌, ◌-◌, List, ◌++◌, length, take, drop, replicate, ltb, if◌then◌else◌, Option, none, some,
}

-- A longer file is cut, a shorter one is filled up with zeros.
unfoldable pub truncate : ℕ → List ℕ → List ℕ
truncate n file = take n file ++ replicate (n - length file) 0

-- What lies between the end of the file and the offset becomes zeros.
unfoldable pub write_file_at : List ℕ → ℕ → List ℕ → List ℕ
unfolding truncate
write_file_at file offset bytes =
    truncate offset file ++ (bytes ++ drop (offset + length bytes) file)

-- The `n` bytes at an offset; ReadAt fails with io.EOF where there are fewer.
unfoldable pub read_file_at : List ℕ → ℕ → ℕ → Option (List ℕ)
read_file_at file offset n =
    let bytes = take n (drop offset file) in if ltb (length bytes) n then none else some bytes
