-- ===== src/Rpc/Connection/Sender.antt =====
-- rpc/connection.cc: send and writepdu, and the rest of the message that is being sent.
use cse_labs.Prelude.{
  ℕ, ◌+◌, ◌-◌, ◌≡◌, ◌⊎◌, inl, inr, refl, ap, sym, subst, ◌∙◌, not, false, some, ◌++◌, arith, Bytes,
  length, take, drop, ◌==◌, given_answer, Bool-cases, check, drop-add, take-append-drop,
}
use cse_labs.Rpc.Connection.{
  Charbuf, Connection, put_size, Write, with_size, write_from, writepdu, wrote_to, write_more,
  write_cb,
}
use cse_labs.Rpc.Connection.Stream.{Writes, some_bytes, no_room, error}
use cse_labs.Rpc.Connection.Frames.{framed, framed_twice, length-put_size, Outgoing}

-- What was written comes off the rest.
abbrev Goes : Connection → Bytes → Bytes → Type 0
Goes c bs rest = (left : Bytes) × (rest ≡ bs ++ left) × Outgoing c.dead c.wpdu left

with_size-framed :
    (w : Charbuf)
    → w.sz ≡ length w.buf
    → (w.solong ≡ 0) ⊎ (w.buf ≡ framed w.buf)
    → with_size w ≡ record w { buf = framed w.buf }
unfolding with_size
with_size-framed w s h = elim (Bool-cases (w.solong == 0)) [
  | inl e ↦ rw e (ap (λ n. record w { buf = put_size w.buf n }) s)
  | inr e ↦ rw e (by_start h e)
]
  where
    by_start :
        (w.solong ≡ 0) ⊎ (w.buf ≡ framed w.buf)
        → (w.solong == 0) ≡ false
        → w ≡ record w { buf = framed w.buf }
    by_start (inl z) e = absurd (ground (arith, z, e))
    by_start (inr g) e = ap (λ k. record w { buf = k }) g

write_from-Goes :
    (c : Connection) (b : Bytes) (sz solong : ℕ) (io : Write) (rest : Bytes)
    → Writes (sz - solong) io
    → Outgoing false (some (record { buf = b; sz = sz; solong = solong })) rest
    → let o = write_from (record { buf = framed b; sz = sz; solong = solong }) io in
      c.dead ≡ false → Goes (wrote_to c o).0 (wrote_to c o).1 rest
unfolding write_from wrote_to
write_from-Goes c b sz solong _ rest (some_bytes n k) (s, l, i, r, h) d =
    let whole = length-put_size b (length b) (omega (arith, s, l)) in
    let again = sym (framed_twice b (omega (arith, s, l))) in
    (
      drop (solong + n) (framed b),
      r
          ∙ sym (take-append-drop n (drop solong (framed b)))
          ∙ ap (λ x. take n (drop solong (framed b)) ++ x) (sym (drop-add solong n (framed b))),
      subst
          (λ x.
            Outgoing x (some (record { buf = framed b; sz = sz; solong = solong + n }))
              (drop (solong + n) (framed b)))
          (sym d) (s ∙ sym whole, l, omega (arith, k, i), ap (drop (solong + n)) again, inr again),
    )
write_from-Goes c b sz solong _ rest no_room (s, l, i, r, h) d =
    let whole = length-put_size b (length b) (omega (arith, s, l)) in
    let again = sym (framed_twice b (omega (arith, s, l))) in
    (
      rest,
      refl,
      subst (λ x. Outgoing x (some (record { buf = framed b; sz = sz; solong = solong })) rest)
          (sym d) (s ∙ sym whole, l, i, r ∙ ap (drop solong) again, inr again),
    )
write_from-Goes c b sz solong _ rest error h d = (rest, refl, tt)

writepdu-Goes :
    (c : Connection) (w : Charbuf) (io : Write) (rest : Bytes)
    → Writes (w.sz - w.solong) io
    → Outgoing false (some w) rest
    → c.dead ≡ false
    → Goes (wrote_to c (writepdu w io)).0 (wrote_to c (writepdu w io)).1 rest
unfolding writepdu wrote_to
writepdu-Goes c w io rest k h d = elim (Bool-cases (w.solong == w.sz)) [
  | inl e ↦ rw e (rest, refl, subst (λ x. Outgoing x (some w) rest) (sym d) h)
  | inr e ↦ rw (e, with_size-framed w h.0 h.4) (write_from-Goes c w.buf w.sz w.solong io rest k h d)
]

-- A call of write_cb.
pub write_cb-Goes :
    (c k : Connection) (w : Charbuf) (io : Write) (bs rest : Bytes)
    → c.wpdu ≡ some w
    → Writes (w.sz - w.solong) io
    → write_cb c io ≡ some (k, bs)
    → Outgoing c.dead c.wpdu rest
    → Goes k bs rest
unfolding write_cb write_more
write_cb-Goes c k w io bs rest e m g h = elim (Bool-cases c.dead) [
  | inl d ↦ absurd (ground (arith, d, g))
  | inr d ↦
      let here =
        ap (λ b. check (not b) (some (write_more c c.wpdu io))) d
        ∙ ap (λ o. some (write_more c o io)) e in
      let out = subst (λ o. Outgoing false o rest) e (subst (λ b. Outgoing b c.wpdu rest) d h) in
      given_answer (λ p. Goes p.0 p.1 rest) (sym here ∙ g) (writepdu-Goes c w io rest m out d)
]
