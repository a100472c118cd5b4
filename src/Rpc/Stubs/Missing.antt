-- ===== src/Rpc/Stubs/Missing.antt =====
-- rpc/rpc.h: a call with fewer arguments than the method takes.
use cse_labs.Prelude.{
  ℕ, ◌+◌, ◌^◌, ◌<◌, ◌≤◌, ◌≡◌, refl, Bool, true, false, none, some, List, [], ◌∷◌, ◌++◌, arith,
  Bytes, length, length-append, All, map,
}
use cse_labs.Rpc.Marshall.{
  Unmarshall, Arg, Kind, a_bool, a_u8, a_u16, a_u32, a_u64, a_text, kind, get_arg, get_args, okdone,
  get_rawbyte, next_byte, get_bool, get_u8, get_u16, get_u32, get_u64, get_text,
}
use cse_labs.Rpc.Marshall.Encode.{enc_arg, enc_args}
use cse_labs.Rpc.Marshall.RoundTrip.{reader, FitsType, get_arg-enc_arg}
use cse_labs.Rpc.Stubs.{run_method, serve}

abbrev at_end : ℕ → Bool → Unmarshall
at_end i ok = record { ind = i; rest = []; ok = ok }

-- A reader at its end gets some value, and is no longer good.
get_arg-at_end :
    (i : ℕ) (ok : Bool) (k : Kind)
    → (v : Arg) × (get_arg (at_end i ok) k ≡ some (v, at_end i false))
unfolding get_arg get_rawbyte next_byte get_bool get_u8 get_u16 get_u32 get_u64 get_text
get_arg-at_end i ok a_bool = (_, refl)
get_arg-at_end i ok a_u8 = (_, refl)
get_arg-at_end i ok a_u16 = (_, refl)
get_arg-at_end i ok a_u32 = (_, refl)
get_arg-at_end i ok a_u64 = (_, refl)
get_arg-at_end i ok a_text = (_, refl)

get_args-at_end :
    (i : ℕ) (ks : List Kind)
    → (vs : List Arg) × (get_args (at_end i false) ks ≡ some (vs, at_end i false))
unfolding get_args
get_args-at_end i [] = ([], refl)
get_args-at_end i (k ∷ ks) =
    let (v, e) = get_arg-at_end i false k in
    let (vs, es) = get_args-at_end i ks in (v ∷ vs, rw (e, es) refl)

get_args-missing :
    (i : ℕ) (args : List Arg) (k : Kind) (ks : List Kind)
    → All FitsType args
    → i + length (enc_args args) < 2 ^ 31
    → (vs : List Arg) × (n : ℕ) × (get_args (reader i (enc_args args)) (map kind args ++ k ∷ ks)
        ≡ some (vs, at_end n false))
unfolding get_args
get_args-missing i [] k ks f l =
    let (v, e) = get_arg-at_end i true k in
    let (vs, es) = get_args-at_end i ks in (v ∷ vs, i, rw (e, es) refl)
get_args-missing i (a ∷ args) k ks f l =
    let both = length-append (enc_arg a) (enc_args args) in
    let here = get_arg-enc_arg i a (enc_args args) f.0 (omega (arith, both)) in
    let (vs, n, e) =
      get_args-missing (i + length (enc_arg a)) args k ks f.1 (omega (arith, both)) in
    (a ∷ vs, n, rw (here, e) refl)

-- A call with fewer arguments than the method takes, whatever they are, makes the server fail a check:
-- the arguments that are there are read, the others are not, and the failure that the handler returns
-- is a negative number.
pub serve_missing :
    (meth : List Arg → ℕ × Arg) (memory : Bytes) (xid : ℕ) (args : List Arg) (k : Kind)
    (ks : List Kind)
    → All FitsType args
    → length (enc_args args) ≤ 2 ^ 28
    → serve meth (map kind args ++ k ∷ ks) memory xid (reader 24 (enc_args args)) ≡ none
unfolding serve run_method
serve_missing meth memory xid args k ks f l =
    let (vs, n, e) = get_args-missing 24 args k ks f (omega (arith, l)) in
    let bad : okdone (at_end n false) ≡ false = unfold okdone in refl in rw (e, bad) refl
