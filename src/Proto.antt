-- ===== src/Proto.antt =====
-- proto.rs: the wire protocol. Loops has the inner loops of `read`, Machine its state machine,
-- Replies the writers.
pub mod Loops
pub mod Machine
pub mod Replies
use kave.Base.{ℕ, Bool, true, false, Option, List, []}
use kave.Base.Bytes.{Bytes}
use kave.Error.{Result}

pub data ProtoOp : Type 0 where
  get : Bytes → ProtoOp
  set : Bytes → Bytes → ProtoOp
  echo : Bytes → ProtoOp
  sys_close cancelled : ProtoOp

pub data Op : Type 0 where
  op_get op_set op_echo : Op

pub data State : Type 0 where
  start read_op read_key_len read_key read_echo read_value_len read_value done : State

-- What `read_buf` comes to: the bytes that one read appended to the buffer, `UnexpectedEof`, the
-- kill signal, or another error. At the end of a stream that was closed in order a read returns
-- no bytes.
pub data ReadEvent : Type 0 where
  received : Bytes → ReadEvent
  eof killed failed : ReadEvent

-- `Proto`, the reads to come, and the variables of `read`.
pub record Reader : Type 0 where
  pub buf : Bytes
  pub fresh : Bool
  pub input : List ReadEvent
  pub state : State
  pub op : Op
  pub between_colons : Bool
  pub needs_read : Bool
  pub ptr : ℕ
  pub key_len_buf : Bytes
  pub key_len : ℕ
  pub key : Bytes
  pub echoed : Bytes
  pub value_len_buf : Bytes
  pub value_len : ℕ
  pub value : Bytes
  pub residual : Bytes

-- `Proto` between two calls of `read`.
pub record Proto : Type 0 where
  pub buf : Bytes
  pub fresh : Bool

-- `Proto::new`
unfoldable pub new : Proto
new = record { buf = []; fresh = true }

-- The starting defaults of `read`.
unfoldable pub defaults : Proto → List ReadEvent → Reader
defaults proto input = record {
  buf = proto.buf;
  fresh = proto.fresh;
  input = input;
  state = start;
  op = op_get;
  between_colons = false;
  needs_read = proto.fresh;
  ptr = 0;
  key_len_buf = [];
  key_len = 0;
  key = [];
  echoed = [];
  value_len_buf = [];
  value_len = 0;
  value = [];
  residual = [];
}
