-- ===== src/Ydb/Tests.antt =====
-- Keys of one and of two characters.
use cse_labs.Prelude.{◌%◌, ◌<◌, ◌≡◌, refl, [], ◌∷◌, All}
use cse_labs.Ydb.{hash, hash_from, char_to_u64, hashsize}
use cse_labs.Ydb.Basic.{poly, hash-poly}

-- `aB` is stored in the extent of the root directory.
hash_a_b : hash (97 ∷ 66 ∷ []) ≡ 1
unfolding hash hash_from char_to_u64
hash_a_b = refl

hash-poly_example :
    (hash (97 ∷ 66 ∷ []) < hashsize)
    × (All (λ c. c < 128) (97 ∷ 66 ∷ []) → hash (97 ∷ 66 ∷ []) ≡ poly 0 (97 ∷ 66 ∷ []) % hashsize)
hash-poly_example = hash-poly (97 ∷ 66 ∷ [])
