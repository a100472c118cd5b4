-- ===== src/Rpc/Window/Covered.antt =====
-- rpc/rpc.cc, class rpcs: the numbers that a window covers, which are in it or below its front.
use cse_labs.Prelude.{
  ℕ, ◌<◌, ◌≤◌, ◌≡◌, ◌⊎◌, inl, inr, refl, ◌∙◌, Bool, true, false, none, some, List, [], ◌∷◌, arith,
  ltb, leb, ◌==◌, if◌then◌else◌, Bytes, Bool-cases, Option-cases,
}
use cse_labs.Rpc.Window.{
  Reply, RpcState, new, forgotten, find_reply, state_of, front_above, insert_reply, erase_below,
  check_window, set_reply,
}

-- Whether the window has the number.
unfoldable pub has : List Reply → ℕ → Bool
has [] x = false
has (r ∷ w) x = if r.xid == x then true else has w x

-- The numbers of the window ascend.
abbrev pub Above : ℕ → List Reply → Type 0
Above x [] = Unit
Above x (r ∷ w) = (x < r.xid) × Above r.xid w

abbrev pub IsAscending : List Reply → Type 0
IsAscending [] = Unit
IsAscending (r ∷ w) = Above r.xid w

abbrev pub Covers : List Reply → ℕ → Type 0
Covers w x = (has w x ≡ true) ⊎ (front_above w x ≡ true)

find_reply-has-none : (w : List Reply) (x : ℕ) → find_reply w x ≡ none → has w x ≡ false
unfolding find_reply has
find_reply-has-none [] x h = refl
find_reply-has-none (r ∷ w) x h = ground (arith, find_reply-has-none w x)

insert_reply-Above :
    (y : ℕ) (w : List Reply) (x : ℕ)
    → Above y w
    → y < x
    → has w x ≡ false
    → Above y (insert_reply w x)
unfolding insert_reply has
insert_reply-Above y [] x a l n = (l, tt)
insert_reply-Above y (r ∷ w) x a l n = ground (arith, insert_reply-Above r.xid w x)

insert_reply-IsAscending :
    (w : List Reply) (x : ℕ) → IsAscending w → has w x ≡ false → IsAscending (insert_reply w x)
unfolding insert_reply has
insert_reply-IsAscending [] x a n = tt
insert_reply-IsAscending (r ∷ w) x a n = ground (arith, insert_reply-Above r.xid w x)

has-insert_reply :
    (w : List Reply) (x y : ℕ) → has (insert_reply w x) y ≡ (if x == y then true else has w y)
unfolding insert_reply has
has-insert_reply [] x y = ground arith
has-insert_reply (r ∷ w) x y = ground (arith, has-insert_reply w x y)

front_above-insert_reply :
    (w : List Reply) (x y : ℕ)
    → front_above w x ≡ false
    → front_above w y ≡ true
    → front_above (insert_reply w x) y ≡ true
unfolding insert_reply front_above
front_above-insert_reply [] x y n h = cc
front_above-insert_reply (r ∷ w) x y n h = ground arith

Above-lower : (y z : ℕ) (w : List Reply) → y < z → Above z w → Above y w
Above-lower y z [] l a = tt
Above-lower y z (r ∷ w) l a = (omega (arith, a.0), a.1)

Above-IsAscending : (y : ℕ) (w : List Reply) → Above y w → IsAscending w
Above-IsAscending y [] a = tt
Above-IsAscending y (r ∷ w) a = a.1

erase_below-IsAscending : (w : List Reply) (k : ℕ) → IsAscending w → IsAscending (erase_below w k)
unfolding erase_below
erase_below-IsAscending [] k a = tt
erase_below-IsAscending (r ∷ w) k a = elim (Bool-cases (leb k r.xid)) [
  | inl p ↦ rw p a
  | inr p ↦ rw p (erase_below-IsAscending w k (Above-IsAscending r.xid w a))
]

-- What is left has the bound or begins above everything below it.
front_above-erase_below :
    (w : List Reply) (k y x : ℕ)
    → has w y ≡ true
    → k ≤ y
    → x < k
    → front_above (erase_below w k) x ≡ true
unfolding erase_below has front_above
front_above-erase_below [] k y x h l s = cc
front_above-erase_below (r ∷ w) k y x h l s = elim (Bool-cases (leb k r.xid)) [
  | inl p ↦ rw p (ground arith)
  | inr p ↦ rw p (front_above-erase_below w k y x (ground (arith, h, p)) l s)
]

-- Dropping what is below a bound that some number of the window reaches uncovers nothing.
Covers-erase_below :
    (w : List Reply) (k y x : ℕ)
    → IsAscending w
    → has w y ≡ true
    → k ≤ y
    → Covers w x
    → Covers (erase_below w k) x
unfolding erase_below has front_above
Covers-erase_below [] k y x a h l c = c
Covers-erase_below (r ∷ w) k y x a h l c = elim (Bool-cases (leb k r.xid)) [
  | inl p ↦ rw p c
  | inr p ↦ elim (Bool-cases (ltb x k)) [
    | inl q ↦ inr (rw p (front_above-erase_below w k y x (ground (arith, h, p)) l (ground arith)))
    | inr q ↦ rw p (
        Covers-erase_below w k y x (Above-IsAscending r.xid w a) (ground (arith, h, p)) l
          (inl (ground (arith, c, p, q))))
  ]
]

-- What the window says of a number and what it covers afterwards.
pub record Checked (w : List Reply) (xid : ℕ) (r : List Reply × RpcState) : Type 0 where
  pub ascending : IsAscending r.0
  pub covered : Covers r.0 xid
  pub keeps : (x : ℕ) → Covers w x → Covers r.0 x
  pub fresh : r.1 ≡ new → Covers w xid → ⊥

find_reply-has : (w : List Reply) (x : ℕ) {r : Reply} → find_reply w x ≡ some r → has w x ≡ true
unfolding find_reply has
find_reply-has [] x h = cc
find_reply-has (r ∷ w) x {r = r1} h = ground (arith, find_reply-has w x {r = r1})

state_of-ne-new : (r : Reply) → state_of r ≡ new → ⊥
state_of-ne-new r e = ground arith

check_window-old :
    (w : List Reply) (xid xid_rep : ℕ) {r : Reply}
    → find_reply w xid ≡ some r
    → check_window w xid xid_rep ≡ (w, state_of r)
unfolding check_window
check_window-old w xid xid_rep f = ground (arith, f)

check_window-forgotten :
    (w : List Reply) (xid xid_rep : ℕ)
    → find_reply w xid ≡ none
    → front_above w xid ≡ true
    → check_window w xid xid_rep ≡ (w, forgotten)
unfolding check_window
check_window-forgotten w xid xid_rep f g = ground (arith, f, g)

check_window-new :
    (w : List Reply) (xid xid_rep : ℕ)
    → find_reply w xid ≡ none
    → front_above w xid ≡ false
    → check_window w xid xid_rep ≡ (erase_below (insert_reply w xid) xid_rep, new)
unfolding check_window
check_window-new w xid xid_rep f g = ground (arith, f, g)

Covers-insert_reply :
    (w : List Reply) (xid x : ℕ)
    → front_above w xid ≡ false
    → Covers w x
    → Covers (insert_reply w xid) x
Covers-insert_reply w xid x g (inl h) = inl (ground (arith, has-insert_reply w xid x, h))
Covers-insert_reply w xid x g (inr h) = inr (front_above-insert_reply w xid x g h)

pub check_window-Checked :
    (w : List Reply) (xid xid_rep : ℕ)
    → IsAscending w
    → xid_rep ≤ xid
    → Checked w xid (check_window w xid xid_rep)
check_window-Checked w xid xid_rep a l = elim (Option-cases (find_reply w xid)) [
  | inr (r, f) ↦ rw (check_window-old w xid xid_rep f) (record {
    ascending = a;
    covered = inl (find_reply-has w xid f);
    keeps = λ x c. c;
    fresh = λ e _. state_of-ne-new r e;
  })
  | inl f ↦ elim (Bool-cases (front_above w xid)) [
    | inl g ↦ rw (check_window-forgotten w xid xid_rep f g) (record {
      ascending = a;
      covered = inr g;
      keeps = λ x c. c;
      fresh = λ e _. ground (arith, e);
    })
    | inr g ↦
        let apart = find_reply-has-none w xid f in
        let up = insert_reply-IsAscending w xid a apart in
        let mine : has (insert_reply w xid) xid ≡ true =
          ground (arith, has-insert_reply w xid xid) in
        rw (check_window-new w xid xid_rep f g) (record {
          ascending = erase_below-IsAscending (insert_reply w xid) xid_rep up;
          covered = Covers-erase_below (insert_reply w xid) xid_rep xid xid up mine l (inl mine);
          keeps = λ x c.
              Covers-erase_below (insert_reply w xid) xid_rep xid x up mine l
                (Covers-insert_reply w xid x g c);
          fresh = λ _ c. ground (arith, c, apart, g);
        })
  ]
]

-- Storing a reply changes no number.
has-set_reply : (w : List Reply) (xid x : ℕ) (b : Bytes) → has (set_reply w xid b) x ≡ has w x
unfolding set_reply has
has-set_reply [] xid x b = refl
has-set_reply (r ∷ w) xid x b = ground (arith, has-set_reply w xid x b)

front_above-set_reply :
    (w : List Reply) (xid x : ℕ) (b : Bytes) → front_above (set_reply w xid b) x ≡ front_above w x
unfolding set_reply front_above
front_above-set_reply [] xid x b = refl
front_above-set_reply (r ∷ w) xid x b = ground arith

set_reply-Above :
    (y : ℕ) (w : List Reply) (xid : ℕ) (b : Bytes) → Above y w → Above y (set_reply w xid b)
unfolding set_reply
set_reply-Above y [] xid b a = tt
set_reply-Above y (r ∷ w) xid b a = ground (arith, set_reply-Above r.xid w xid b)

pub set_reply-IsAscending :
    (w : List Reply) (xid : ℕ) (b : Bytes) → IsAscending w → IsAscending (set_reply w xid b)
unfolding set_reply
set_reply-IsAscending [] xid b a = tt
set_reply-IsAscending (r ∷ w) xid b a = ground (arith, set_reply-Above r.xid w xid b)

pub set_reply-Covers :
    (w : List Reply) (xid x : ℕ) (b : Bytes) → Covers w x → Covers (set_reply w xid b) x
set_reply-Covers w xid x b (inl h) = inl (has-set_reply w xid x b ∙ h)
set_reply-Covers w xid x b (inr h) = inr (front_above-set_reply w xid x b ∙ h)
