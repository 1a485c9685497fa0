-- ===== src/CommitLog/Torn.antt =====
-- A log whose last record was cut off, as a crash in the middle of an append leaves it, and a
-- record that is longer than the room of the one read.
use mathlib.Core.Path.{subst}
use kave.Base.{
  ℕ, ◌≤◌, ◌<◌, false, List, [], ◌∷◌, ◌++◌, ◌≡◌, ◌∙◌, sym, ap, arith, leb, length, length-append,
  length-take, take, drop, append_assoc, take-append-drop,
}
use kave.Base.Bytes.{Bytes}
use kave.Base.Words.{to_be_bytes, u64_mod}
use kave.Error.{ok, err, bincode_error}
use kave.External.{Codec, IsBincode, AsyncIo, IsBigEndian, FullReads, full_read}
use kave.CommitLog.{
  CommitLogLine, CommitLog, created, decode_from, read_lines, read_all, record_room,
  get_unfinished_transactions,
}
use kave.CommitLog.Lines.{bytes_of, Fit, bytes_of-append, read_all-bytes_of}

module _ {codec : Codec CommitLogLine} (bincode : IsBincode codec) {tokio : AsyncIo}
    (big_endian : IsBigEndian tokio) where
  -- The read of a record that returns fewer bytes than its size says.
  decode_from-short :
      (line : CommitLogLine) (stream rest : Bytes) (n : ℕ)
      → length (bincode.encoding line) < u64_mod
      → n < length (bincode.encoding line)
      → tokio.read_buf stream (record_room codec tokio (length (bincode.encoding line)))
        ≡ ok (take n (bincode.encoding line), rest)
      → decode_from codec tokio (to_be_bytes (length (bincode.encoding line)) ++ stream)
        ≡ err bincode_error
  unfolding decode_from
  decode_from-short line stream rest n fits cut read = rw (
    big_endian.read_u64_ok (length (bincode.encoding line)) stream fits,
    read,
    bincode.deserialize_cut line n cut,
  )

  -- The loop behind whole records, at a record that is read short.
  read_all-short :
      (ls : List CommitLogLine) (line : CommitLogLine) (stream rest : Bytes) (n : ℕ)
      → FullReads tokio
      → Fit bincode tokio.vec_room ls
      → length (bytes_of bincode ls ++ (to_be_bytes (length (bincode.encoding line)) ++ stream))
        ≤ tokio.buffer_size
      → length (bincode.encoding line) < u64_mod
      → n < length (bincode.encoding line)
      → tokio.read_buf stream (record_room codec tokio (length (bincode.encoding line)))
        ≡ ok (take n (bincode.encoding line), rest)
      → read_all codec tokio
          (bytes_of bincode ls ++ (to_be_bytes (length (bincode.encoding line)) ++ stream))
        ≡ err bincode_error
  unfolding read_lines
  read_all-short ls line stream rest n full fit whole fits cut read = rw (
    read_all-bytes_of bincode big_endian ls _ full fit whole,
    read_lines,
    decode_from-short line stream rest n fits cut read,
  )

  -- A record that is longer than the room of the read is cut there.
  long_read :
      (line : CommitLogLine) (more : Bytes)
      → FullReads tokio
      → tokio.vec_room < length (bincode.encoding line)
      → length (bincode.encoding line ++ more) ≤ tokio.buffer_size
      → tokio.read_buf
          (bincode.encoding line ++ more)
          (record_room codec tokio (length (bincode.encoding line)))
        ≡ ok (
          take tokio.vec_room (bincode.encoding line),
          drop tokio.vec_room (bincode.encoding line) ++ more,
        )
  unfolding record_room
  long_read line more full long whole =
      let body = bincode.encoding line in
      let room = tokio.vec_room in
      let over : leb (length body) room ≡ false = ground (arith, long) in
      let split : body ++ more ≡ take room body ++ (drop room body ++ more) =
        ap (λ (b : Bytes). b ++ more) (sym (take-append-drop room body))
        ∙ append_assoc (take room body) (drop room body) more in
      let held : length (take room body ++ (drop room body ++ more)) ≤ tokio.buffer_size =
        subst (λ (b : Bytes). length b ≤ tokio.buffer_size) split whole in
      rw (over, split)
        (full_read tokio (take room body) (drop room body ++ more) room full held
          (sym (length-take room body (omega arith))))

  -- If the log file is whole records that fit the room of the read, and behind them one that is
  -- longer, and anything, then `get_unfinished_transactions` returns the bincode error and none of
  -- the transactions. The file is no longer than the buffer through which it is read, and the codec
  -- and the stream keep their laws.
  pub get_unfinished_long :
      (log : CommitLog) (ls more : List CommitLogLine) (line : CommitLogLine)
      → created log.file ≡ bytes_of bincode (ls ++ line ∷ more)
      → FullReads tokio
      → Fit bincode tokio.vec_room ls
      → tokio.vec_room < length (bincode.encoding line)
      → length (bincode.encoding line) < u64_mod
      → length (created log.file) ≤ tokio.buffer_size
      → (get_unfinished_transactions codec tokio log).0 ≡ err bincode_error
  unfolding get_unfinished_transactions
  get_unfinished_long log ls more line h full fit long fits whole =
      let body = bincode.encoding line in
      let size = to_be_bytes (length body) in
      let behind = bytes_of bincode more in
      let split : created log.file ≡ bytes_of bincode ls ++ (size ++ (body ++ behind)) =
        h
        ∙ bytes_of-append bincode ls (line ∷ more)
        ∙ ap (λ (b : Bytes). bytes_of bincode ls ++ b) (append_assoc size body behind) in
      let held : length (bytes_of bincode ls ++ (size ++ (body ++ behind))) ≤ tokio.buffer_size =
        subst (λ (b : Bytes). length b ≤ tokio.buffer_size) split whole in
      let last : length (body ++ behind) ≤ tokio.buffer_size = omega (
        arith,
        held,
        length-append (bytes_of bincode ls) (size ++ (body ++ behind)),
        length-append size (body ++ behind),
      ) in
      rw (
        split,
        read_all-short ls line (body ++ behind) _ tokio.vec_room full fit held fits long
            (long_read line behind full long last),
      )

  -- If the log file is whole records that fit the room of the read, and behind them a record of
  -- less than 2^64 bytes cut off after its size, then `get_unfinished_transactions` returns the
  -- bincode error and none of the transactions. The file is no longer than the buffer through which
  -- it is read, the last read takes what is left of the file, and the codec and the stream keep
  -- their laws.
  pub get_unfinished_torn :
      (log : CommitLog) (ls : List CommitLogLine) (line : CommitLogLine) (n : ℕ)
      → created log.file
        ≡ bytes_of bincode ls
          ++ (to_be_bytes (length (bincode.encoding line)) ++ take n (bincode.encoding line))
      → FullReads tokio
      → Fit bincode tokio.vec_room ls
      → length (created log.file) ≤ tokio.buffer_size
      → length (bincode.encoding line) < u64_mod
      → n < length (bincode.encoding line)
      → tokio.read_buf
          (take n (bincode.encoding line))
          (record_room codec tokio (length (bincode.encoding line)))
        ≡ ok (take n (bincode.encoding line), [])
      → (get_unfinished_transactions codec tokio log).0 ≡ err bincode_error
  unfolding get_unfinished_transactions
  get_unfinished_torn log ls line n h full fit whole fits cut read = rw (
    h,
    read_all-short ls line (take n (bincode.encoding line)) [] n full fit
        (subst (λ (b : Bytes). length b ≤ tokio.buffer_size) h whole) fits cut read,
  )
