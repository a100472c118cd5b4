-- ===== src/Rpc/Caller/Front.antt =====
-- rpc/rpc.cc, class rpcc: what the front of the client's window says.
use cse_labs.Prelude.{
  ℕ, ◌+◌, ◌%◌, ◌^◌, ◌≤◌, ◌≡◌, sym, subst, inl, inr, false, List, [], ◌∷◌, ◌++◌, arith, ltb, leb,
  ◌==◌, All, All-append, Bool-cases,
}
use cse_labs.Rpc.Caller.{insert_xid, pop_while, compress, update_xid_rep, front}

-- The numbers of the window do not descend.
abbrev AtLeast : ℕ → List ℕ → Type 0
AtLeast x [] = Unit
AtLeast x (y ∷ w) = (x ≤ y) × AtLeast y w

abbrev pub IsSorted : List ℕ → Type 0
IsSorted [] = Unit
IsSorted (x ∷ w) = AtLeast x w

insert_xid-AtLeast : (y xid : ℕ) (w : List ℕ) → y ≤ xid → AtLeast y w → AtLeast y (insert_xid xid w)
unfolding insert_xid
insert_xid-AtLeast y xid [] l a = (l, tt)
insert_xid-AtLeast y xid (x ∷ w) l a = elim (Bool-cases (ltb xid x)) [
  | inl p ↦ rw p (l, (ground arith, a.1))
  | inr p ↦ rw p (a.0, insert_xid-AtLeast x xid w (ground arith) a.1)
]

AtLeast-snoc :
    (x l y : ℕ) (a : List ℕ) → AtLeast x (a ++ l ∷ []) → l ≤ y → AtLeast x ((a ++ l ∷ []) ++ y ∷ [])
AtLeast-snoc x l y [] s h = (s.0, (h, tt))
AtLeast-snoc x l y (b ∷ a) s h = (s.0, AtLeast-snoc b l y a s.1 h)

IsSorted-snoc :
    (l y : ℕ) (a : List ℕ) → IsSorted (a ++ l ∷ []) → l ≤ y → IsSorted ((a ++ l ∷ []) ++ y ∷ [])
IsSorted-snoc l y [] s h = (h, tt)
IsSorted-snoc l y (b ∷ a) s h = AtLeast-snoc b l y a s h

AtLeast-IsSorted : (x : ℕ) (w : List ℕ) → AtLeast x w → IsSorted w
AtLeast-IsSorted x [] a = tt
AtLeast-IsSorted x (y ∷ w) a = a.1

AtLeast-last : (x y : ℕ) (w : List ℕ) → AtLeast x (w ++ y ∷ []) → x ≤ y
AtLeast-last x y [] s = s.0
AtLeast-last x y (z ∷ w) s = omega (arith, s.0, AtLeast-last z y w s.1)

module _ (Acked : ℕ → Type 0) where
  -- Every number of the window, and every number up to its front, was acknowledged.
  pub record IsHonest (w : List ℕ) : Type 0 where
    pub sorted : IsSorted w
    pub acked : All Acked w
    pub below : (z : ℕ) → z ≤ front w → Acked z

  All-insert_xid : (xid : ℕ) (w : List ℕ) → Acked xid → All Acked w → All Acked (insert_xid xid w)
  unfolding insert_xid
  All-insert_xid xid [] p a = (p, tt)
  All-insert_xid xid (x ∷ w) p a = elim (Bool-cases (ltb xid x)) [
    | inl q ↦ rw q (p, a)
    | inr q ↦ rw q (a.0, All-insert_xid xid w p a.1)
  ]

  below_next :
      (x y : ℕ)
      → ((z : ℕ) → z ≤ x → Acked z)
      → Acked y
      → (x + 1) % 2 ^ 32 ≡ y
      → x ≤ y
      → (z : ℕ) → z ≤ y
      → Acked z
  below_next x y b p e l z h = elim (Bool-cases (leb z x)) [
    | inl q ↦ b z (ground arith)
    | inr q ↦ subst Acked (sym (ground (arith, e, q))) p
  ]

  All_last : (x y : ℕ) (w : List ℕ) → All Acked ((x ∷ w) ++ y ∷ []) → Acked y
  All_last x y [] a = a.1.0
  All_last x y (z ∷ w) a = All_last z y w a.1

  pop_while-IsHonest :
      (x y : ℕ) (w : List ℕ)
      → IsSorted ((x ∷ w) ++ y ∷ [])
      → All Acked ((x ∷ w) ++ y ∷ [])
      → ((z : ℕ) → z ≤ x → Acked z)
      → IsHonest (pop_while (x ∷ w) y ++ y ∷ [])
  unfolding pop_while front
  pop_while-IsHonest x y [] s a b = elim (Bool-cases ((x + 1) % 2 ^ 32 == y)) [
    | inr q ↦ rw q (record { sorted = s; acked = a; below = b })
    | inl q ↦
        let all = below_next x y b a.1.0 (ground (arith, q)) s.0 in
        rw q (record { sorted = tt; acked = a.1; below = all })
  ]
  pop_while-IsHonest x y (x' ∷ w) s a b = elim (Bool-cases ((x + 1) % 2 ^ 32 == y)) [
    | inr q ↦ rw q (record { sorted = s; acked = a; below = b })
    | inl q ↦
        let last = AtLeast-last x' y w s.1 in
        let all =
          below_next x y b (All_last x' y w a.1) (ground (arith, q)) (omega (arith, s.0, last)) in
        rw q (pop_while-IsHonest x' y w s.1 a.1 (λ z h. all z (omega (arith, h, last))))
  ]

  pop_any-IsHonest :
      (l y : ℕ) (a : List ℕ)
      → IsHonest (a ++ l ∷ [])
      → l ≤ y
      → Acked y
      → IsHonest (pop_while (a ++ l ∷ []) y ++ y ∷ [])
  unfolding front
  pop_any-IsHonest l y [] h le p = pop_while-IsHonest l y [] (le, tt) (h.acked.0, (p, tt)) h.below
  pop_any-IsHonest l y (b ∷ a) h le p =
      pop_while-IsHonest b y (a ++ l ∷ []) (IsSorted-snoc l y (b ∷ a) h.sorted le)
        (All-append Acked ((b ∷ a) ++ l ∷ []) (y ∷ []) h.acked (p, tt)) h.below

  compress-IsHonest :
      (l : ℕ) (a rest : List ℕ)
      → IsHonest (a ++ l ∷ [])
      → AtLeast l rest
      → All Acked rest
      → IsHonest (compress (a ++ l ∷ []) rest)
  unfolding compress
  compress-IsHonest l a [] h s p = h
  compress-IsHonest l a (y ∷ rest) h s p =
      compress-IsHonest y (pop_while (a ++ l ∷ []) y) rest (pop_any-IsHonest l y a h s.0 p.0) s.1
        p.1

  -- The front tells the truth to the server: when a number is acknowledged, in any order and any
  -- number of times, every number up to the new front of the window was acknowledged.
  pub update_xid_rep-IsHonest :
      (w : List ℕ) (xid : ℕ) → IsHonest w → Acked xid → IsHonest (update_xid_rep w xid)
  unfolding update_xid_rep
  update_xid_rep-IsHonest [] xid h p = h
  update_xid_rep-IsHonest (x ∷ w) xid h p = elim (Bool-cases (leb xid x)) [
    | inl q ↦ rw q h
    | inr q ↦
        let later : ltb xid x ≡ false = ground arith in
        let one : IsHonest (x ∷ []) = record {
          sorted = tt;
          acked = (h.acked.0, tt);
          below = unfold front in h.below;
        } in
        let done =
          compress-IsHonest x [] (insert_xid xid w) one
            (insert_xid-AtLeast x xid w (ground arith) h.sorted)
            (All-insert_xid xid w p h.acked.1) in
        rw (q, later) done
  ]
