-- ===== src/External.antt =====
-- The code outside the repository that the storage calls: bincode's (de)serialisers and tokio's
-- reads and writes on a stream. Each is a parameter; the records of laws state what their
-- documentation promises, of `read_buf` also what the buffers below it make of it.
use kave.Base.{ℕ, ◌≤◌, ◌<◌, ◌++◌, ◌≡◌, length, take, drop}
use kave.Base.Bytes.{Bytes}
use kave.Base.Words.{to_be_bytes, u64_mod}
use kave.Error.{Result, ok, err, io, unexpected_eof, bincode_error}

-- `bincode::{serialize, serialized_size, deserialize}` at a type.
pub record Codec (A : Type 0) : Type 0 where
  pub serialize : A → Result Bytes
  pub serialized_size : A → Result ℕ
  pub deserialize : Bytes → Result A

-- Every value of the type serialises, to as many bytes as `serialized_size` says; `deserialize`
-- reads it back, allows trailing bytes, and refuses an encoding that is cut off.
pub record IsBincode {A : Type 0} (codec : Codec A) : Type 0 where
  pub encoding : A → Bytes
  pub serialize_ok : (a : A) → codec.serialize a ≡ ok (encoding a)
  pub serialized_size_ok : (a : A) → codec.serialized_size a ≡ ok (length (encoding a))
  pub deserialize_ok : (a : A) (rest : Bytes) → codec.deserialize (encoding a ++ rest) ≡ ok a
  pub deserialize_cut :
      (a : A) (n : ℕ)
      → n < length (encoding a)
      → codec.deserialize (take n (encoding a)) ≡ err bincode_error

-- `read_u64`, `write_u64` and `read_buf` of `AsyncReadExt` and `AsyncWriteExt`. A read returns
-- what it took and what is left. `read_buf` is one read, into room for so many bytes. `vec_room` is
-- the room that it makes in a `Vec` that was just created, and `buffer_size` the bytes that the
-- smallest of the buffers holds through which `BufReader` and `File` read.
pub record AsyncIo : Type 0 where
  pub read_u64 : Bytes → Result (ℕ × Bytes)
  pub write_u64 : ℕ → Bytes
  pub read_buf : Bytes → ℕ → Result (Bytes × Bytes)
  pub vec_room : ℕ
  pub buffer_size : ℕ

pub record IsBigEndian (tokio : AsyncIo) : Type 0 where
  pub write_u64_lem : (n : ℕ) → tokio.write_u64 n ≡ to_be_bytes n
  pub read_u64_ok :
      (n : ℕ) (rest : Bytes) → n < u64_mod → tokio.read_u64 (to_be_bytes n ++ rest) ≡ ok (n, rest)
  pub read_u64_eof :
      (stream : Bytes) → length stream < 8 → tokio.read_u64 stream ≡ err (io unexpected_eof)

-- What is documented of every `read_buf`: it takes bytes from the front of the stream, no more than
-- there is room for, and possibly fewer.
abbrev pub Reads : AsyncIo → Type 0
Reads tokio =
    (stream : Bytes) (room : ℕ)
    → (n : ℕ) × (n ≤ room) × (tokio.read_buf stream room ≡ ok (take n stream, drop n stream))

-- A stream that is no longer than the buffer is in it as a whole behind one read of the system, so
-- that one `read_buf` fills the room that it is given, if there is as much. On a longer stream a read
-- may be short: it returns what is left of the buffer, or no more than the buffer holds.
pub record FullReads (tokio : AsyncIo) : Type 0 where
  pub fills :
      (a b : Bytes)
      → length (a ++ b) ≤ tokio.buffer_size
      → tokio.read_buf (a ++ b) (length a) ≡ ok (a, b)
  pub room_fits : tokio.vec_room < u64_mod
  pub buffer_fits : tokio.buffer_size < u64_mod

-- A full read, where the room is as large as a first part of the stream.
pub full_read :
    (tokio : AsyncIo) (a b : Bytes) (n : ℕ)
    → FullReads tokio
    → length (a ++ b) ≤ tokio.buffer_size
    → n ≡ length a
    → tokio.read_buf (a ++ b) n ≡ ok (a, b)
full_read tokio a b n full fits h = rw h (full.fills a b fits)
