-- ===== src/Rpc/Calls/Invariant.antt =====
-- What holds of the client, the server and the requests that were sent.
use cse_labs.Prelude.{
  ℕ, ◌+◌, ◌%◌, ◌^◌, ◌<◌, ◌≡◌, inl, inr, refl, sym, subst, false, List, [], ◌∷◌, arith, ◌==◌, All,
  nat_key, Bool-cases, not, ◌&&◌, ◌||◌,
}
use cse_labs.StdMap.{member, IsDistinct}
use cse_labs.Rpc.Marshall.{ReqHeader}
use cse_labs.Rpc.Window.{Reply}
use cse_labs.Rpc.Window.Covered.{IsAscending, Covers}
use cse_labs.Rpc.Server.{window_of}
use cse_labs.Rpc.Caller.{Client, sends, front, call1_start, bind_proc}
use cse_labs.Rpc.Caller.Front.{IsHonest}
use cse_labs.Rpc.Calls.{System, In}

abbrev pub Sent : ℕ → ℕ → ReqHeader → Type 0
Sent n top h = (h.xid_rep < h.xid) × (h.xid < top) × (h.clt_nonce ≡ n)

pub record Inv (n : ℕ) (s : System) : Type 0 where
  pub named : s.client.clt_nonce ≡ n
  pub sent : All (Sent n s.client.xid) s.sent
  pub honest : IsHonest (λ z. z < s.client.xid) s.client.xid_rep_window
  pub ascending : IsAscending (window_of s.server n)
  pub covered : All (Covers (window_of s.server n)) s.executed
  pub distinct : IsDistinct s.executed

pub All-In :
    (P : ReqHeader → Type 0) {h : ReqHeader} (gs : List ReqHeader) → All P gs → In h gs → P h
All-In P [] a i = absurd i
All-In P (g ∷ gs) a (inl e) = subst P (sym e) a.0
All-In P (g ∷ gs) a (inr i) = All-In P gs a.1 i

pub All-mono :
    {A : Type 0} (P Q : A → Type 0) (xs : List A) → ((x : A) → P x → Q x) → All P xs → All Q xs
All-mono P Q [] f a = tt
All-mono P Q (x ∷ xs) f a = (f x a.0, All-mono P Q xs f a.1)

pub not_executed :
    (w : List Reply) (x : ℕ) (xs : List ℕ)
    → All (Covers w) xs
    → (Covers w x → ⊥)
    → member x xs ≡ false
unfolding member
not_executed w x [] a n = refl
not_executed w x (y ∷ ys) a n = elim (Bool-cases (y == x)) [
  | inl p ↦ let e : y ≡ x = ground (arith, p) in absurd (n (subst (Covers w) e a.0))
  | inr p ↦ ground (arith, p, not_executed w x ys a.1 n)
]

pub IsHonest-mono :
    (P Q : ℕ → Type 0) (w : List ℕ) → ((z : ℕ) → P z → Q z) → IsHonest P w → IsHonest Q w
IsHonest-mono P Q w f h = record {
  sorted = h.sorted;
  acked = All-mono P Q w f h.acked;
  below = λ z l. f z (h.below z l);
}

pub call1_start_sends :
    (c : Client) (proc : ℕ) {h : ReqHeader} {c' : Client}
    → call1_start c proc ≡ (c', sends h)
    → c.xid + 1 < 2 ^ 32
    → ((c'.xid ≡ c.xid + 1)
        × (c'.clt_nonce ≡ c.clt_nonce)
        × (c'.xid_rep_window ≡ c.xid_rep_window)
        × (h.xid ≡ c.xid)
        × (h.clt_nonce ≡ c.clt_nonce)
        × (h.xid_rep ≡ front c.xid_rep_window))
unfolding call1_start
call1_start_sends c proc e l =
    elim (Bool-cases
      ((not (proc == bind_proc) && not c.bind_done) || (proc == bind_proc && c.bind_done))) [
        | inl p ↦ absurd (ground (arith, e, p))
        | inr p ↦ elim (Bool-cases c.destroy_wait) [
          | inl q ↦ absurd (ground (arith, e, p, q))
          | inr q ↦
              let small : (c.xid + 1) % 2 ^ 32 ≡ c.xid + 1 = omega arith in
              ground (arith, e, p, q, small)
        ]
      ]
