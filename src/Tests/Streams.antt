-- ===== src/Tests/Streams.antt =====
-- Concrete streams: one whose reads are full, and one that reads at most two bytes at once.
use kave.Base.{
  ◌≤◌, if◌then◌else◌, leb, ap, ℕ, ◌<◌, Option, none, some, ◌∷◌, ◌++◌, ◌≡◌, refl, arith, length,
  take, drop, take-append_length, drop-append_length,
}
use kave.Base.Bytes.{Bytes}
use kave.Base.Words.{u64_mod, to_be_bytes, from_be_bytes, from_be_bytes-to_be_bytes}
use kave.Error.{Result, ok, err, io, unexpected_eof}
use kave.External.{AsyncIo, IsBigEndian, FullReads, Reads}

or_eof : Option (ℕ × Bytes) → Result (ℕ × Bytes)
or_eof none = err (io unexpected_eof)
or_eof (some r) = ok r

unfoldable pub read_number : Bytes → Result (ℕ × Bytes)
unfolding or_eof
read_number stream = or_eof (from_be_bytes stream)

unfoldable pub full_stream : AsyncIo
unfolding read_number to_be_bytes
full_stream = record {
  read_u64 = read_number;
  write_u64 = to_be_bytes;
  read_buf = λ stream room. ok (take room stream, drop room stream);
  vec_room = 64;
  buffer_size = 8_192;
}

from_be_bytes-short : (stream : Bytes) → length stream < 8 → from_be_bytes stream ≡ none
unfolding from_be_bytes
from_be_bytes-short (a ∷ b ∷ c ∷ d ∷ e ∷ f ∷ g ∷ h ∷ rest) short = absurd (omega arith)
from_be_bytes-short _ short = refl

read_number-to_be_bytes :
    (n : ℕ) (rest : Bytes) → n < u64_mod → read_number (to_be_bytes n ++ rest) ≡ ok (n, rest)
unfolding read_number
read_number-to_be_bytes n rest h = ap or_eof (from_be_bytes-to_be_bytes n rest h)

read_number-short :
    (stream : Bytes) → length stream < 8 → read_number stream ≡ err (io unexpected_eof)
unfolding read_number
read_number-short stream h = ap or_eof (from_be_bytes-short stream h)

pub full_stream-IsBigEndian : IsBigEndian full_stream
unfolding full_stream read_number
full_stream-IsBigEndian = record {
  write_u64_lem = λ n. refl;
  read_u64_ok = read_number-to_be_bytes;
  read_u64_eof = read_number-short;
}

pub full_stream-FullReads : FullReads full_stream
unfolding full_stream
full_stream-FullReads = record {
  fills = λ a b h. rw (take-append_length a b, drop-append_length a b) refl;
  room_fits = omega arith;
  buffer_fits = omega arith;
}

-- One read gives at most two bytes.
unfoldable pub short_stream : AsyncIo
unfolding read_number to_be_bytes
short_stream = record {
  read_u64 = read_number;
  write_u64 = to_be_bytes;
  read_buf =
      λ stream room. let n = if leb room 2 then room else 2 in ok (take n stream, drop n stream);
  vec_room = 64;
  buffer_size = 2;
}

pub short_stream-IsBigEndian : IsBigEndian short_stream
unfolding short_stream read_number
short_stream-IsBigEndian = record {
  write_u64_lem = λ n. refl;
  read_u64_ok = read_number-to_be_bytes;
  read_u64_eof = read_number-short;
}

pub short_stream-Reads : Reads short_stream
unfolding short_stream
short_stream-Reads stream room =
    let n = if leb room 2 then room else 2 in
    let within : n ≤ room = ground arith in (n, within, refl)
