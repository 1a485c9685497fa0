-- ===== src/Proto/Replies.antt =====
-- The bytes that the writers put on the stream.
use kave.Base.{[], ◌∷◌, ◌++◌, length}
use kave.Base.Bytes.{Bytes}
use kave.Base.Decimal.{to_string}

unfoldable pub write_null : Bytes
write_null = b'n' ∷ b'u' ∷ b'l' ∷ b'l' ∷ b'\n' ∷ []

unfoldable pub write_echo : Bytes → Bytes
write_echo msg = to_string (length msg) ++ b':' ∷ (msg ++ b'\n' ∷ [])

unfoldable pub write_get_result : Bytes → Bytes
write_get_result found = to_string (length found) ++ b':' ∷ (found ++ b'\n' ∷ [])

-- The number of bytes saved, as text, behind the length of that text.
unfoldable pub write_set_result : Bytes → Bytes
write_set_result value =
    let len_v = to_string (length value) in to_string (length len_v) ++ b':' ∷ (len_v ++ b'\n' ∷ [])
