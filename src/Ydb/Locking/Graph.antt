-- ===== src/Ydb/Locking/Graph.antt =====
-- The graph of who waits for whom, and the search for a cycle.
use cse_labs.Prelude.{
  subst, sym, ℕ, zero, suc, ◌+◌, ◌<◌, ◌≤◌, ◌≡◌, ◌≢◌, refl, ap, ◌∙◌, ◌⊎◌, inl, inr, Bool, true,
  false, not, ◌&&◌, Option, none, some, arith, ◌==◌, Bool-cases,
}
use cse_labs.Ydb.Locking.{Matrix, any_from, dfs, add_edge}

-- `a` waits for `b`, in any number of steps among `n` transactions; a transaction that waits for
-- itself is not followed.
pub data Waits (d : Matrix) (n : ℕ) : ℕ → ℕ → Type 0 where
  here : {a : ℕ} → Waits d n a a
  step : {a i b : ℕ} → d a i ≡ true → i ≢ a → i < n → Waits d n i b → Waits d n a b

-- No cycle: every transaction has a rank above the ranks of those that it waits for.
abbrev pub IsRanked : Matrix → ℕ → (ℕ → ℕ) → Type 0
IsRanked d n rank = (a i : ℕ) → d a i ≡ true → i ≢ a → i < n → rank i < rank a

-- What the loop finds, if each recursive call has a result that says the truth.
abbrev Decides : (ℕ → Option Bool) → Matrix → ℕ → ℕ → ℕ → Type 0
Decides go d n a b =
    (i : ℕ)
    → d a i ≡ true
    → i ≢ a
    → i < n
    → ((go i ≡ some true) × Waits d n i b) ⊎ ((go i ≡ some false) × (Waits d n i b → ⊥))

abbrev Found : Matrix → ℕ → ℕ → ℕ → ℕ → Option Bool → Type 0
Found d n a b lo r =
    ((r ≡ some true) × Waits d n a b)
    ⊎ ((r ≡ some false) × ((i : ℕ) → lo ≤ i → d a i ≡ true → i ≢ a → i < n → Waits d n i b → ⊥))

later-Found :
    (d : Matrix) (n a b i : ℕ) {r r' : Option Bool}
    → (d a i ≡ true → i ≢ a → i < n → Waits d n i b → ⊥)
    → r' ≡ r
    → Found d n a b (i + 1) r
    → Found d n a b i r'
later-Found d n a b i never e (inl (f, w)) = inl (e ∙ f, w)
later-Found d n a b i never e (inr (f, none_later)) = inr (
  e ∙ f,
  λ j l x y z w. elim (Bool-cases (j == i)) [
    | inl p ↦
        let same : j ≡ i = ground arith in
        never (subst (λ k. d a k ≡ true) same x) (subst (λ k. k ≢ a) same y) (omega arith)
          (subst (λ k. Waits d n k b) same w)
    | inr p ↦ none_later j (ground arith) x y z w
  ],
)

any_from-Found :
    (go : ℕ → Option Bool) (d : Matrix) (n a b i m : ℕ)
    → i + m ≡ n
    → Decides go d n a b
    → Found d n a b i (any_from go d a i m)
unfolding any_from
any_from-Found go d n a b i zero e h = inr (refl, λ j l _ _ u. absurd (omega arith))
any_from-Found go d n a b i (suc m) e h =
    let rest = any_from-Found go d n a b (i + 1) m (omega arith) h in
    elim (Bool-cases (d a i && not (i == a))) [
      | inr p ↦ later-Found d n a b i (λ x y _ _. y (ground arith)) (rw p refl) rest
      | inl p ↦
          let edge : d a i ≡ true = ground arith in
          let other : i ≢ a = λ q. ground (arith, p, q) in
          elim (h i edge other (omega arith)) [
            | inl (f, w) ↦ inl (rw (p, f) refl, step edge other (omega arith) w)
            | inr (f, never) ↦ later-Found d n a b i (λ _ _ _ w. never w) (rw (p, f) refl) rest
          ]
    ]

abbrev pub Answer : Matrix → ℕ → ℕ → ℕ → Option Bool → Type 0
Answer d n a b r = ((r ≡ some true) × Waits d n a b) ⊎ ((r ≡ some false) × (Waits d n a b → ⊥))

no_step :
    (d : Matrix) (n a b : ℕ)
    → a ≢ b
    → ((i : ℕ) → 0 ≤ i → d a i ≡ true → i ≢ a → i < n → Waits d n i b → ⊥)
    → Waits d n a b
    → ⊥
no_step d n a b ne never here = ne refl
no_step d n a b ne never (step {i = i} x y z w) = never i (omega arith) x y z w

-- The search for a cycle ends and tells the truth. Where nobody waits for himself through others
-- (the graph has ranks), any depth of recursion above the rank of the first transaction is enough;
-- `dfs` then answers, and its answer is true exactly when the first transaction waits for the second.
pub dfs_decides :
    (fuel : ℕ) (d : Matrix) (n a b : ℕ) (rank : ℕ → ℕ)
    → IsRanked d n rank
    → rank a < fuel
    → Answer d n a b (dfs fuel d n a b)
unfolding dfs
dfs_decides zero d n a b rank ranked h = absurd (omega arith)
dfs_decides (suc fuel) d n a b rank ranked h = elim (Bool-cases (a == b)) [
  | inl p ↦ let same : a ≡ b = ground arith in inl (rw p refl, subst (λ k. Waits d n a k) same here)
  | inr p ↦
      let go : Decides (λ i. dfs fuel d n i b) d n a b =
        λ i x y z. dfs_decides fuel d n i b rank ranked (omega (arith, ranked a i x y z)) in
      elim (any_from-Found (λ i. dfs fuel d n i b) d n a b 0 n (omega arith) go) [
        | inl (f, w) ↦ inl (rw p f, w)
        | inr (f, never) ↦ inr (rw p f, no_step d n a b (λ q. ground (arith, p, q)) never)
      ]
]

-- A new rank: those that wait for `id` rise above all that `id2` waits for.
abbrev lift_by : Option Bool → ℕ → ℕ → ℕ
lift_by (some true) r up = r + up + 1
lift_by (some false) r up = r
lift_by none r up = r

abbrev lifted : Matrix → ℕ → (ℕ → ℕ) → ℕ → ℕ → ℕ → ℕ
lifted d n rank id id2 a = lift_by (dfs (suc (rank a)) d n a id) (rank a) (rank id2)

lifted_cases :
    (d : Matrix) (n : ℕ) (rank : ℕ → ℕ) (id id2 a : ℕ)
    → IsRanked d n rank
    → (Waits d n a id × (lifted d n rank id id2 a ≡ rank a + rank id2 + 1))
      ⊎ ((Waits d n a id → ⊥) × (lifted d n rank id id2 a ≡ rank a))
lifted_cases d n rank id id2 a ranked =
    elim (dfs_decides (suc (rank a)) d n a id rank ranked (omega arith)) [
      | inl (f, w) ↦ inl (w, ap (λ o. lift_by o (rank a) (rank id2)) f)
      | inr (f, never) ↦ inr (never, ap (λ o. lift_by o (rank a) (rank id2)) f)
    ]

lifted_old :
    (d : Matrix) (n : ℕ) (rank : ℕ → ℕ) (id id2 a i : ℕ)
    → IsRanked d n rank
    → d a i ≡ true
    → i ≢ a
    → i < n
    → lifted d n rank id id2 i < lifted d n rank id id2 a
lifted_old d n rank id id2 a i ranked p y z =
    let lower = ranked a i p y z in
    elim (lifted_cases d n rank id id2 i ranked) [
      | inl (wi, ei) ↦ elim (lifted_cases d n rank id id2 a ranked) [
        | inl (wa, ea) ↦ omega (arith, lower, ei, ea)
        | inr (never, _) ↦ absurd (never (step p y z wi))
      ]
      | inr (_, ei) ↦ elim (lifted_cases d n rank id id2 a ranked) [
        | inl (wa, ea) ↦ omega (arith, lower, ei, ea)
        | inr (_, ea) ↦ omega (arith, lower, ei, ea)
      ]
    ]

lifted_new :
    (d : Matrix) (n : ℕ) (rank : ℕ → ℕ) (id id2 : ℕ)
    → IsRanked d n rank
    → (Waits d n id2 id → ⊥)
    → lifted d n rank id id2 id2 < lifted d n rank id id2 id
lifted_new d n rank id id2 ranked apart = elim (lifted_cases d n rank id id2 id2 ranked) [
  | inl (w, _) ↦ absurd (apart w)
  | inr (_, e2) ↦ elim (lifted_cases d n rank id id2 id ranked) [
    | inl (_, e) ↦ omega (arith, e, e2)
    | inr (never, _) ↦ absurd (never here)
  ]
]

-- What `checkCycle` lets in keeps the graph without cycles: if `id2` does not wait for `id`, the graph
-- still has ranks when `id` waits for `id2`.
pub add_edge-IsRanked :
    (d : Matrix) (n : ℕ) (rank : ℕ → ℕ) (id id2 : ℕ)
    → IsRanked d n rank
    → (Waits d n id2 id → ⊥)
    → (rank' : ℕ → ℕ) × IsRanked (add_edge d id id2) n rank'
unfolding add_edge
add_edge-IsRanked d n rank id id2 ranked apart = (
  lifted d n rank id id2,
  λ a i x y z. elim (Bool-cases (d a i)) [
    | inl p ↦ lifted_old d n rank id id2 a i ranked p y z
    | inr p ↦
        let (ea, ei) : (a ≡ id) × (i ≡ id2) = ground (arith, x, p) in
        subst (λ k. lifted d n rank id id2 i < lifted d n rank id id2 k) (sym ea)
          (subst (λ k. lifted d n rank id id2 k < lifted d n rank id id2 id) (sym ei)
            (lifted_new d n rank id id2 ranked apart))
  ],
)
