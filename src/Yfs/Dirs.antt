-- ===== src/Yfs/Dirs.antt =====
-- The content of a directory: for each entry its name, a colon, the number of its inode in decimal
-- and a slash. The part of yfs_client::readdir and lookup that works on this string.
use cse_labs.Prelude.{
  ℕ, zero, suc, ◌^◌, ◌<◌, ◌≤◌, ◌≡◌, ◌≢◌, refl, sym, ap, ◌∙◌, Option, none, some, List, [], ◌∷◌,
  ◌++◌, arith, ◌==◌, if◌then◌else◌, Bool-cases, Option-cases, inl, inr, Bytes, bytes_eq,
  bytes_eq_iff, ◌>>=◌, length, length-append, All, All-append, append_nil, append_assoc,
}
use cse_labs.Yfs.Numbers.{filename, n2i, n2i-filename, filename-IsDigit, IsDigit}

-- `yfs_client::dirent`
pub record Dirent : Type 0 where
  pub name : Bytes
  pub inum : ℕ

abbrev pub colon : ℕ
colon = 58

abbrev pub slash : ℕ
slash = 47

-- `find` of a character with the `substr` on its two sides; `none` is `npos`.
unfoldable pub split_at : ℕ → Bytes → Option (Bytes × Bytes)
split_at c [] = none
split_at c (x ∷ xs) =
    let rest = split_at c xs in
    if x == c then some ([], xs) else rest >>= (λ (before, after). some (x ∷ before, after))

-- The loop of `readdir` over what follows `nm_start`. Where a slash is missing, `nm_start` becomes 0
-- and the loop of the source never ends: `none`, as for a loop that is out of fuel.
unfoldable pub readdir_from : ℕ → Bytes → Option (List Dirent)
unfolding split_at
readdir_from zero buf = none
readdir_from (suc fuel) buf = elim (split_at colon buf) [
  | none ↦ some []
  | some (name, behind) ↦ split_at slash behind >>= λ (inum, next).
      readdir_from fuel next >>= λ entries. some (record { name = name; inum = n2i inum } ∷ entries)
]

-- Every round drops the colon that it finds, so the length of the content is enough fuel.
unfoldable pub parse_dir : Bytes → Option (List Dirent)
unfolding readdir_from
parse_dir buf = readdir_from (suc (length buf)) buf

-- The loop of `lookup`: the first entry of the name.
unfoldable pub find_name : List Dirent → Bytes → Option ℕ
find_name [] name = none
find_name (e ∷ es) name =
    let rest = find_name es name in if bytes_eq e.name name then some e.inum else rest

-- An entry as `extent_server::create` appends it, and a directory of entries.
unfoldable pub dir_entry : Bytes → ℕ → Bytes
dir_entry name inum = name ++ (colon ∷ (filename inum ++ (slash ∷ [])))

unfoldable pub print_dir : List Dirent → Bytes
unfolding dir_entry
print_dir [] = []
print_dir (e ∷ es) = dir_entry e.name e.inum ++ print_dir es

-- An entry that the format can hold.
pub record IsEntry (e : Dirent) : Type 0 where
  pub plain : All (λ c. c ≢ colon) e.name
  pub fits : e.inum < 2 ^ 64

split_at-append :
    (c : ℕ) (before after : Bytes)
    → All (λ x. x ≢ c) before
    → split_at c (before ++ (c ∷ after)) ≡ some (before, after)
unfolding split_at
split_at-append c [] after h = ground arith
split_at-append c (x ∷ xs) after h = ground (arith, h.0, split_at-append c xs after h.1)

split_at-length :
    (c : ℕ) (buf before after : Bytes)
    → split_at c buf ≡ some (before, after)
    → length after < length buf
unfolding split_at
split_at-length c [] before after h = cc
split_at-length c (x ∷ xs) before after h = elim (Option-cases (split_at c xs)) [
  | inl e ↦ ground (arith, e)
  | inr ((b, a), e) ↦ ground (arith, e, split_at-length c xs b a e)
]

digits-plain : (s : Bytes) → All IsDigit s → All (λ c. c ≢ slash) s
digits-plain [] h = tt
digits-plain (c ∷ cs) h = (λ e. omega (arith, e, h.0.0), digits-plain cs h.1)

dir_entry-append :
    (name : Bytes) (inum : ℕ) (rest : Bytes)
    → dir_entry name inum ++ rest ≡ name ++ (colon ∷ (filename inum ++ (slash ∷ rest)))
unfolding dir_entry
dir_entry-append name inum rest =
    append_assoc name (colon ∷ (filename inum ++ (slash ∷ []))) rest
    ∙ ap (λ t. name ++ (colon ∷ t)) (append_assoc (filename inum) (slash ∷ []) rest)

readdir_from_step :
    (fuel : ℕ) (buf name behind inum next : Bytes) (es : List Dirent)
    → split_at colon buf ≡ some (name, behind)
    → split_at slash behind ≡ some (inum, next)
    → readdir_from fuel next ≡ some es
    → readdir_from (suc fuel) buf ≡ some (record { name = name; inum = n2i inum } ∷ es)
unfolding readdir_from
readdir_from_step fuel buf name behind inum next es f s r = ground (arith, f, s, r)

readdir_from-print_dir :
    (fuel : ℕ) (es : List Dirent)
    → length es < fuel
    → All IsEntry es
    → readdir_from fuel (print_dir es) ≡ some es
unfolding readdir_from print_dir
readdir_from-print_dir zero es h v = absurd (omega arith)
readdir_from-print_dir (suc fuel) [] h v = unfold split_at in refl
readdir_from-print_dir (suc fuel) (e ∷ es) h v =
    let rest = readdir_from-print_dir fuel es (omega arith) v.1 in
    let here = split_at-append colon e.name (filename e.inum ++ (slash ∷ print_dir es)) v.0.plain in
    let number =
      split_at-append slash (filename e.inum) (print_dir es)
        (digits-plain (filename e.inum) (filename-IsDigit e.inum)) in
    ap (readdir_from (suc fuel)) (dir_entry-append e.name e.inum (print_dir es))
    ∙ readdir_from_step fuel (e.name ++ (colon ∷ (filename e.inum ++ (slash ∷ print_dir es))))
        e.name (filename e.inum ++ (slash ∷ print_dir es)) (filename e.inum) (print_dir es) es here
        number rest
    ∙ ap (λ n. some (record { name = e.name; inum = n } ∷ es)) (n2i-filename e.inum v.0.fits)

-- More fuel than the length of the content changes nothing: a result `none` is not for lack of fuel.
readdir_from-fuel :
    (n m : ℕ) (buf : Bytes)
    → length buf < n
    → length buf < m
    → readdir_from n buf ≡ readdir_from m buf
unfolding readdir_from
readdir_from-fuel zero m buf h k = absurd (omega arith)
readdir_from-fuel (suc n) zero buf h k = absurd (omega arith)
readdir_from-fuel (suc n) (suc m) buf h k = elim (Option-cases (split_at colon buf)) [
  | inl e ↦ ground (arith, e)
  | inr ((name, behind), e) ↦ elim (Option-cases (split_at slash behind)) [
    | inl f ↦ ground (arith, e, f)
    | inr ((inum, next), f) ↦
        let shorter = split_at-length colon buf name behind e in
        let shorter' = split_at-length slash behind inum next f in
        ground (arith, e, f, readdir_from-fuel n m next (omega arith) (omega arith))
  ]
]

length-print_dir : (es : List Dirent) → length es ≤ length (print_dir es)
unfolding print_dir
length-print_dir [] = omega arith
length-print_dir (e ∷ es) =
    let rest = length-print_dir es in
    let a = length-append (dir_entry e.name e.inum) (print_dir es) in
    let b = length-append e.name (colon ∷ (filename e.inum ++ (slash ∷ []))) in
    unfold dir_entry in omega (arith, a, b, rest)

-- A directory that was printed entry by entry is read back as these entries, in their order; the
-- names hold no colon and the numbers fit 64 bits.
pub parse_dir-print_dir : (es : List Dirent) → All IsEntry es → parse_dir (print_dir es) ≡ some es
unfolding parse_dir
parse_dir-print_dir es v =
    readdir_from-print_dir (suc (length (print_dir es))) es (omega (arith, length-print_dir es)) v

print_dir-append :
    (es : List Dirent) (e : Dirent)
    → print_dir es ++ dir_entry e.name e.inum ≡ print_dir (es ++ (e ∷ []))
unfolding print_dir
print_dir-append [] e = sym (append_nil (dir_entry e.name e.inum))
print_dir-append (d ∷ es) e =
    append_assoc (dir_entry d.name d.inum) (print_dir es) (dir_entry e.name e.inum)
    ∙ ap (λ t. dir_entry d.name d.inum ++ t) (print_dir-append es e)

-- The contents of a directory that the format holds.
pub record Holds (buf : Bytes) (es : List Dirent) : Type 0 where
  pub printed : buf ≡ print_dir es
  pub entries : All IsEntry es

pub Holds-parse_dir : {buf : Bytes} {es : List Dirent} → Holds buf es → parse_dir buf ≡ some es
Holds-parse_dir {es = es} h = ap parse_dir h.printed ∙ parse_dir-print_dir es h.entries

pub Holds-append :
    {buf : Bytes} {es : List Dirent} {e : Dirent}
    → Holds buf es
    → IsEntry e
    → Holds (buf ++ dir_entry e.name e.inum) (es ++ (e ∷ []))
Holds-append {buf} {es} {e} h v = record {
  printed = ap (λ t. t ++ dir_entry e.name e.inum) h.printed ∙ print_dir-append es e;
  entries = All-append IsEntry es (e ∷ []) h.entries (v, tt);
}

-- A new entry at the end is found under its name, if no entry had it; other names are found as
-- before.
pub find_name-append :
    (es : List Dirent) (name other : Bytes) (inum : ℕ)
    → find_name es name ≡ none
    → find_name (es ++ (record { name = name; inum = inum } ∷ [])) other
      ≡ (if bytes_eq name other then some inum else find_name es other)
unfolding find_name
find_name-append [] name other inum h = refl
find_name-append (e ∷ es) name other inum h = elim (Bool-cases (bytes_eq e.name name)) [
  | inl p ↦ ground (arith, p)
  | inr p ↦
      let rest = find_name-append es name other inum (ground (arith, p)) in
      elim (Bool-cases (bytes_eq e.name other)) [
        | inl q ↦
            ground (arith, p, q, (bytes_eq_iff e.name other).0 q, bytes_eq_iff name other, rest)
        | inr q ↦ ground (arith, p, q, rest)
      ]
]
