-- ===== src/Value.antt =====
-- `Value` of store/lsm.rs: what a memtable and an SSTable hold for a key.
use kave.Base.{Option, none, some}
use kave.Base.Bytes.{Bytes}

pub data Value : Type 0 where
  present : Bytes → Value
  tombstone : Value

unfoldable pub as_option : Value → Option Bytes
as_option (present bytes) = some bytes
as_option tombstone = none
