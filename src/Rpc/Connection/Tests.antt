-- ===== src/Rpc/Connection/Tests.antt =====
-- A message of six bytes, written in two pieces and read in two.
use cse_labs.Prelude.{
  ℕ, ◌≡◌, inr, refl, true, false, some, none, List, [], ◌∷◌, ◌++◌, arith, Bytes, map,
}
use cse_labs.Rpc.Marshall.{packed}
use cse_labs.Rpc.Connection.{
  Connection, got, wrote, put_size, with_size, write_from, writepdu, wrote_to, write_more, write_cb,
  send_begin, send_end, size_of, read_size, read_body, read_on, readpdu, hand_up, wants_more,
  was_read, read_cb,
}
use cse_labs.Rpc.Connection.Stream.{
  Stream, Reach, begin, next, sends, writes, ends, reads_size, some_bytes,
}
use cse_labs.Rpc.Connection.Frames.{framed}
use cse_labs.Rpc.Connection.InOrder.{messages_in_order, messages_arrive}

abbrev text : Bytes
text = 9 ∷ 9 ∷ 9 ∷ 9 ∷ 7 ∷ 8 ∷ []

abbrev on_wire : Bytes
on_wire = 0 ∷ 0 ∷ 0 ∷ 6 ∷ 7 ∷ 8 ∷ []

abbrev idle : Connection
idle = record { dead = false; wpdu = none; rpdu = none }

abbrev writing : Bytes → ℕ → Connection
writing b n = record {
  dead = false;
  wpdu = some (record { buf = b; sz = 6; solong = n });
  rpdu = none;
}

abbrev at : Connection → Bytes → List Bytes → Stream
at c wire handed = record {
  sender = c;
  wire = wire;
  receiver = idle;
  requested = text ∷ [];
  handed = handed;
}

whole_Reach : Reach (at idle [] (on_wire ∷ []))
unfolding packed put_size with_size write_from writepdu wrote_to write_more write_cb send_begin
    send_end size_of read_size read_body read_on readpdu hand_up wants_more was_read read_cb
whole_Reach =
    next {s = at idle on_wire []}
      (next {s = at (writing on_wire 6) on_wire []}
        (next {s = at (writing on_wire 3) (0 ∷ 0 ∷ 0 ∷ []) []}
          (next {s = at (writing text 0) [] []}
            (next begin (sends text refl refl (omega arith) (omega arith)))
            (writes (record { buf = text; sz = 6; solong = 0 }) (wrote 3) (writing on_wire 3)
              (0 ∷ 0 ∷ 0 ∷ []) refl (some_bytes 3 (omega arith)) refl))
          (writes (record { buf = on_wire; sz = 6; solong = 3 }) (wrote 3) (writing on_wire 6)
            (6 ∷ 7 ∷ 8 ∷ []) refl (some_bytes 3 (omega arith)) refl))
        (ends (record { buf = on_wire; sz = 6; solong = 6 }) refl (inr refl)))
      (reads_size (got (0 ∷ 0 ∷ 0 ∷ 6 ∷ [])) (got (7 ∷ 8 ∷ [])) (7 ∷ 8 ∷ []) [] true idle
        (on_wire ∷ []) refl refl (some_bytes 4 (omega arith) (omega arith) (omega arith))
        (some_bytes 2 (omega arith) (omega arith) (omega arith)) refl)

messages_in_order_example :
    (later : List Bytes) × (map framed (text ∷ []) ≡ (on_wire ∷ []) ++ later)
messages_in_order_example = messages_in_order whole_Reach

messages_arrive_example : on_wire ∷ [] ≡ map framed (text ∷ [])
messages_arrive_example = messages_arrive whole_Reach refl refl refl refl refl
