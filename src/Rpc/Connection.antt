-- ===== src/Rpc/Connection.antt =====
-- rpc/connection.h and connection.cc: messages over a stream of bytes. What the system calls return is
-- an argument. `none` is a VERIFY that fails, or memory that is written behind a buffer.
pub mod Stream
mod Frames
mod Sender
mod Receiver
pub mod InOrder
mod Tests
use cse_labs.Prelude.{
  ℕ, suc, ◌+◌, ◌*◌, ◌^◌, Bool, true, false, not, ◌&&◌, Option, none, some, List, [], ◌∷◌, ◌++◌,
  arith, ltb, leb, ◌==◌, if◌then◌else◌, Bytes, length, take, drop, check, ◌>>=◌,
}
use cse_labs.Rpc.Marshall.{packed}

-- `MAX_PDU`
abbrev pub max_pdu : ℕ
max_pdu = 10 * 2 ^ 20

-- A buffer, its size, and the bytes that were written or read so far.
pub record Charbuf : Type 0 where
  pub buf : Bytes
  pub sz : ℕ
  pub solong : ℕ

-- `none` is the null pointer, with 0 for the two numbers.
pub record Connection : Type 0 where
  pub dead : Bool
  pub wpdu : Option Charbuf
  pub rpdu : Option Charbuf

abbrev pub new_connection : Connection
new_connection = record { dead = false; wpdu = none; rpdu = none }

-- What `write` returned: a number of bytes, EAGAIN, or another error.
pub data Write : Type 0 where
  wrote : ℕ → Write
  full broken : Write

-- What `read` returned. At the end of the stream `errno` is what an earlier call has left, and
-- may be EAGAIN.
pub data Read : Type 0 where
  got : Bytes → Read
  eof : Bool → Read
  empty failed : Read

-- `bcopy` of the size, in network order, over the first four bytes.
unfoldable pub put_size : Bytes → ℕ → Bytes
put_size b sz = packed sz ++ drop 4 b

unfoldable pub with_size : Charbuf → Charbuf
with_size w = if w.solong == 0 then record w { buf = put_size w.buf w.sz } else w

unfoldable pub write_from : Charbuf → Write → Option (Charbuf × Bytes)
write_from w (wrote n) = some (record w { solong = w.solong + n }, take n (drop w.solong w.buf))
write_from w full = some (w, [])
write_from w broken = none

-- `writepdu`, with the bytes that the stream took; `none` is false, and then the connection is dead.
unfoldable pub writepdu : Charbuf → Write → Option (Charbuf × Bytes)
unfolding with_size write_from
writepdu w io = if w.solong == w.sz then some (w, []) else write_from (with_size w) io

-- `send`, when the connection is not dead and has no other message, before the first writepdu.
unfoldable pub send_begin : Connection → Bytes → Connection
send_begin c b = record c { wpdu = some (record { buf = b; sz = length b; solong = 0 }) }

-- A call of writepdu by `send` or `write_cb`.
unfoldable pub wrote_to : Connection → Option (Charbuf × Bytes) → Connection × Bytes
wrote_to c none = (record c { dead = true }, [])
wrote_to c (some (w, bs)) = (record c { wpdu = some w }, bs)

unfoldable pub write_more : Connection → Option Charbuf → Write → Connection × Bytes
unfolding writepdu wrote_to
write_more c none io = (c, [])
write_more c (some w) io = wrote_to c (writepdu w io)

-- The socket can take bytes.
unfoldable pub write_cb : Connection → Write → Option (Connection × Bytes)
unfolding write_more
write_cb c io = check (not c.dead) (some (write_more c c.wpdu io))

-- The end of `send`: what it returns.
unfoldable pub send_end : Connection → Charbuf → Bool × Connection
send_end c w = (not c.dead && w.solong == w.sz, record c { wpdu = none })

-- `ntohl` of four bytes.
unfoldable pub size_of : Bytes → ℕ
size_of (a ∷ b ∷ c ∷ d ∷ rest) = a * 0x1000000 + b * 0x10000 + c * 0x100 + d
size_of _ = 0

-- The read of the size. A size of 2 ^ 31 or more is a negative `int`; with one of less than four the
-- difference to the bytes that were read is negative, and the next read writes behind the buffer.
unfoldable pub read_size : Read → Option (Bool × Option Charbuf)
read_size (got bs) =
    if not (length bs == 4)
    then some (false, none)
    else check (ltb (size_of bs) (2 ^ 31)) (
        if ltb max_pdu (size_of bs)
        then some (false, none)
        else check (leb 4 (size_of bs))
            (some (true, some (record { buf = bs; sz = size_of bs; solong = 4 }))))
read_size (eof _) = some (false, none)
read_size empty = none
read_size failed = some (false, none)

unfoldable pub read_body : Charbuf → Read → Bool × Option Charbuf
read_body r (got bs) = (true, some (record r { buf = r.buf ++ bs; solong = r.solong + length bs }))
read_body r (eof true) = (true, some r)
read_body r (eof false) = (false, none)
read_body r empty = (true, some r)
read_body r failed = (false, none)

unfoldable pub read_on : Bool × Option Charbuf → Read → Bool × Option Charbuf
unfolding read_body
read_on (true, some r) rest = read_body r rest
read_on (b, r) rest = (b, r)

-- `readpdu`, with what its two reads return.
unfoldable pub readpdu : Option Charbuf → Read → Read → Option (Bool × Option Charbuf)
unfolding read_size read_on
readpdu none first rest = read_size first >>= λ r. some (read_on r rest)
readpdu (some r) first rest = some (read_body r rest)

-- `read_cb` behind readpdu: whether the manager takes the message, and the message that it took.
unfoldable pub hand_up : Connection → Bool → Connection × List Bytes
hand_up c takes = elim c.rpdu [
  | none ↦ (c, [])
  | some r ↦ if r.sz == r.solong && takes then (record c { rpdu = none }, r.buf ∷ []) else (c, [])
]

unfoldable pub wants_more : Option Charbuf → Bool
wants_more none = true
wants_more (some r) = ltb r.solong r.sz

unfoldable pub was_read : Connection → Bool × Option Charbuf → Connection
was_read c (b, r) = record c { dead = not b; rpdu = r }

unfoldable pub read_cb : Connection → Read → Read → Bool → Option (Connection × List Bytes)
unfolding readpdu hand_up wants_more was_read
read_cb c first rest takes =
    if c.dead
    then some (c, [])
    else if wants_more c.rpdu
    then readpdu c.rpdu first rest >>= (λ r. some (hand_up (was_read c r) takes))
    else some (hand_up c takes)
