-- ===== src/Rpc/Connection/Stream.antt =====
-- rpc/connection.cc: a connection that sends, one that receives, and the stream of bytes between them.
use cse_labs.Prelude.{
  ℕ, ◌-◌, ◌≤◌, ◌<◌, ◌≡◌, ◌⊎◌, Bool, true, false, Option, none, some, List, [], ◌∷◌, ◌++◌, Bytes,
  length, take, drop,
}
use cse_labs.Rpc.Connection.{
  Charbuf, Connection, new_connection, max_pdu, Write, wrote, full, broken, Read, got, eof, empty,
  failed, send_begin, send_end, write_cb, read_size, read_cb,
}

-- The bytes on their way, the messages that `send` was called with, and those that were handed up.
pub record Stream : Type 0 where
  pub sender : Connection
  pub wire : Bytes
  pub receiver : Connection
  pub requested : List Bytes
  pub handed : List Bytes

abbrev new_stream : Stream
new_stream = record {
  sender = new_connection;
  wire = [];
  receiver = new_connection;
  requested = [];
  handed = [];
}

-- What `write` may return for `n` bytes.
pub data Writes (n : ℕ) : Write → Type 0 where
  some_bytes : (k : ℕ) → k ≤ n → Writes n (wrote k)
  no_room : Writes n full
  error : Writes n broken

-- What `read` may return for `n` bytes, and the bytes that stay on the wire.
pub data Reads (n : ℕ) (wire : Bytes) : Read → Bytes → Type 0 where
  some_bytes :
      (k : ℕ) → 0 < k → k ≤ n → k ≤ length wire → Reads n wire (got (take k wire)) (drop k wire)
  nothing : Reads n wire empty wire
  end : (stale : Bool) → Reads n wire (eof stale) wire
  error : Reads n wire failed wire

-- How many bytes are read behind the size.
abbrev pub asked_of : Option (Bool × Option Charbuf) → ℕ
asked_of (some (true, some r)) = r.sz - r.solong
asked_of _ = 0

pub data Step (s : Stream) : Stream → Type 0 where
  sends :
      (b : Bytes)
      → s.sender.dead ≡ false
      → s.sender.wpdu ≡ none
      → 4 < length b
      → length b ≤ max_pdu
      → Step s (record s { sender = send_begin s.sender b; requested = s.requested ++ b ∷ [] })
  writes :
      (w : Charbuf) (io : Write) (c : Connection) (bs : Bytes)
      → s.sender.wpdu ≡ some w
      → Writes (w.sz - w.solong) io
      → write_cb s.sender io ≡ some (c, bs)
      → Step s (record s { sender = c; wire = s.wire ++ bs })
  ends :
      (w : Charbuf)
      → s.sender.wpdu ≡ some w
      → (s.sender.dead ≡ true) ⊎ (w.solong ≡ w.sz)
      → Step s (record s { sender = (send_end s.sender w).1 })
  reads_size :
      (first rest : Read) (left1 left2 : Bytes) (takes : Bool) (c : Connection) (ms : List Bytes)
      → s.receiver.dead ≡ false
      → s.receiver.rpdu ≡ none
      → Reads 4 s.wire first left1
      → Reads (asked_of (read_size first)) left1 rest left2
      → read_cb s.receiver first rest takes ≡ some (c, ms)
      → Step s (record s { wire = left2; receiver = c; handed = s.handed ++ ms })
  reads_rest :
      (r : Charbuf) (rest : Read) (left : Bytes) (takes : Bool) (c : Connection) (ms : List Bytes)
      → s.receiver.dead ≡ false
      → s.receiver.rpdu ≡ some r
      → Reads (r.sz - r.solong) s.wire rest left
      → read_cb s.receiver empty rest takes ≡ some (c, ms)
      → Step s (record s { wire = left; receiver = c; handed = s.handed ++ ms })

pub data Reach : Stream → Type 0 where
  begin : Reach new_stream
  next : {s t : Stream} → Reach s → Step s t → Reach t
