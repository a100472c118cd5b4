-- ===== src/Rpc/Marshall/Tests.antt =====
-- A call with a few arguments, a request, and a string with a wrong length.
use cse_labs.Prelude.{
  ℕ, ◌≡◌, refl, nat_key, List, true, some, none, [], ◌∷◌, ◌++◌, arith, Bytes, replicate,
  length-replicate, map,
}
use cse_labs.Rpc.Marshall.{
  message, Marshall, Unmarshall, Arg, bool, u16, u32, u64, text, kind, put_args, get_args, take_in,
  okdone, new_marshall, packed, get_text,
}
use cse_labs.Rpc.Marshall.Encode.{Puts, enc_args, put_args-Puts}
use cse_labs.Rpc.Marshall.RoundTrip.{reader, get_args-put_args}
use cse_labs.StdMap.{Map}
use cse_labs.Rpc.Marshall.Containers.{Operators, put_map, get_map}
use cse_labs.Rpc.Marshall.Containers.Vectors.{vector_operators}
use cse_labs.Rpc.Marshall.Containers.RoundTrip.{u32_operators, text_operators, get_map-put_map}
use cse_labs.Rpc.Marshall.Header.{get_text_overflow}

abbrev arguments : List Arg
arguments = u64 0x7001 ∷ text (104 ∷ 105 ∷ []) ∷ bool true ∷ u16 65535 ∷ u32 7 ∷ []

abbrev memory : Bytes
memory = replicate 24 0xcc

get_args-put_args_example :
    (m : Marshall) × (u : Unmarshall) × (put_args (new_marshall memory) arguments ≡ some m)
    × (get_args (take_in (message m)) (map kind arguments) ≡ some (arguments, u))
    × (okdone u ≡ true)
get_args-put_args_example =
    get_args-put_args memory arguments (length-replicate {A = ℕ} 24 0xcc)
      (omega arith, (tt, (tt, (omega arith, (omega arith, tt))))) (omega arith)

put_args-Puts_example :
    Puts (new_marshall memory) (enc_args arguments) (put_args (new_marshall memory) arguments)
put_args-Puts_example =
    put_args-Puts (new_marshall memory) arguments
      (record { inside = omega arith; small = omega arith }) (omega arith)

get_text_overflow_example : get_text (reader 24 (packed 0xfffffff0 ++ (65 ∷ []))) [] ≡ none
get_text_overflow_example =
    get_text_overflow 24 0xfffffff0 (65 ∷ []) [] (omega arith) (omega arith) (omega arith)

-- A map from numbers to vectors of strings.
abbrev names : Map ℕ (List Bytes)
names = (1, (97 ∷ []) ∷ []) ∷ (2, (98 ∷ 99 ∷ []) ∷ [] ∷ []) ∷ []

abbrev texts : Operators (List Bytes)
texts = vector_operators text_operators

get_map-put_map_example :
    (m : Marshall) × (u : Unmarshall) × (put_map u32_operators texts (new_marshall memory) names
      ≡ some m)
    × (get_map u32_operators texts (take_in (message m)) ((9, []) ∷ []) ≡ some (names, u))
    × (okdone u ≡ true)
get_map-put_map_example =
    get_map-put_map u32_operators texts memory names ((9, []) ∷ [])
      (length-replicate {A = ℕ} 24 0xcc)
      ((omega arith, ((tt, tt), omega arith)), ((omega arith, ((tt, (tt, tt)), omega arith)), tt))
      (((refl, refl), tt), (tt, tt)) (omega arith) (omega arith)
