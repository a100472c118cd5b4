-- ===== src/Rpc/Stubs/Tests.antt =====
-- A call of a method that repeats a string as often as it is told.
use cse_labs.Prelude.{
  ℕ, suc, zero, ◌≡◌, List, [], ◌∷◌, ◌++◌, some, arith, Bytes, replicate, length-replicate, map,
  none,
}
use cse_labs.Rpc.Marshall.{Arg, u32, text, kind, a_u64, a_text, ReqHeader}
use cse_labs.Rpc.Marshall.Encode.{enc_args}
use cse_labs.Rpc.Marshall.RoundTrip.{reader}
use cse_labs.Rpc.Stubs.{serve}
use cse_labs.Rpc.Stubs.Missing.{serve_missing}
use cse_labs.Rpc.Stubs.Remote.{remote_call, remote_call_lem}

repeat_text : ℕ → Bytes → Bytes
repeat_text zero s = []
repeat_text (suc n) s = s ++ repeat_text n s

abbrev meth : List Arg → ℕ × Arg
unfolding repeat_text
meth (text s ∷ u32 n ∷ rest) = (0, text (repeat_text n s))
meth _ = (1, text [])

abbrev arguments : List Arg
arguments = text (104 ∷ 105 ∷ []) ∷ u32 2 ∷ []

abbrev memory : Bytes
memory = replicate 24 0xcc

abbrev header : ReqHeader
header = record { xid = 2; proc = 0x7001; clt_nonce = 77; srv_nonce = 5; xid_rep = 1 }

remote_call_lem_example :
    remote_call meth (map kind arguments) (kind (meth arguments).1) memory memory header arguments
    ≡ some ((meth arguments).0, some (meth arguments).1)
unfolding repeat_text
remote_call_lem_example =
    remote_call_lem meth memory memory header arguments (length-replicate {A = ℕ} 24 0xcc)
      (length-replicate {A = ℕ} 24 0xcc)
      (record {
        xid = omega arith;
        proc = omega arith;
        clt_nonce = omega arith;
        srv_nonce = omega arith;
        xid_rep = omega arith;
      })
      (tt, (omega arith, tt)) (omega arith)
      (record { no_failure = omega arith; fits = tt; short = omega arith })

-- The create of extent_client with a type alone, and the four arguments that the server's takes.
serve_missing_example :
    serve meth
      (map kind (u32 1 ∷ []) ++ a_text ∷ a_u64 ∷ a_text ∷ [])
      memory
      3
      (reader 24 (enc_args (u32 1 ∷ [])))
    ≡ none
serve_missing_example =
    serve_missing meth memory 3 (u32 1 ∷ []) a_text (a_u64 ∷ a_text ∷ []) (omega arith, tt)
      (omega arith)
