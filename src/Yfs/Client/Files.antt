-- ===== src/Yfs/Client/Files.antt =====
-- Writing, reading and truncating a file.
use cse_labs.Prelude.{
  ℕ, ◌≤◌, ◌≡◌, refl, ap, ◌∙◌, false, some, ◌>>=◌, arith, ◌==◌, if◌then◌else◌, Bytes, length,
}
use cse_labs.Yfs.Buffers.{resize, read_content, write_content}
use cse_labs.Yfs.Buffers.Written.{Written, write_content-Written, read_content-Written}
use cse_labs.Yfs.Services.{Extents, Locks}
use cse_labs.Yfs.Client.{Yfs, ok, read, write, setattr}
use cse_labs.Yfs.Client.Locked.{Freed, under_lock-Freed}

module _ {E L : Type 0} (x : Extents E) (k : Locks L) where
  -- The extents `e'` are `e` with the content `b` in `i`.
  abbrev Stored : E → E → ℕ → Bytes → Type 0
  Stored e e' i b = (j : ℕ) → x.value e' j ≡ (if i == j then b else x.value e j)

  -- `read` returns the bytes of the content that lie in the range, and changes no content.
  read_lem :
      (s : Yfs E L) (ino size off : ℕ)
      → k.held s.lc ino ≡ false
      → (s' : Yfs E L) × (read x k s ino size off
          ≡ some ((ok, read_content (x.value s.ec ino) size off), s'))
        × ((j : ℕ) → x.value s'.ec j ≡ x.value s.ec j)
        × Freed x k s.lc s'.lc ino
  unfolding read
  read_lem s ino size off free =
      let (e, got, keeps, _, _) = x.get_ok s.ec ino in
      let (s', ran, here, freed) =
        under_lock-Freed x k s ino
          (λ ec. do (buf, ec') ← x.get ec ino; some ((ok, read_content buf size off), ec')) free
          (rw got refl) in
      (s', ran, λ j. ap (λ v. x.value v j) here ∙ keeps j, freed)

  -- `write` with a size and an offset that fit an `int`, on a free lock and with room for the new
  -- content: it returns OK and the size; the file holds the written content, every other extent is
  -- as it was, and the lock is free again.
  write_lem :
      (s : Yfs E L) (ino off : ℕ) (chunk : Bytes)
      → k.held s.lc ino ≡ false
      → length chunk ≤ 0x7fffffff
      → off ≤ 0x7fffffff
      → ((b : Bytes) → Written (x.value s.ec ino) off chunk b → x.CanPut s.ec ino b)
      → (s' : Yfs E L) × (b : Bytes) × (write x k s ino off chunk ≡ some ((ok, length chunk), s'))
        × Written (x.value s.ec ino) off chunk b
        × Stored s.ec s'.ec ino b
        × Freed x k s.lc s'.lc ino
  unfolding write
  write_lem s ino off chunk free l o room =
      let (b, made, w) = write_content-Written (x.value s.ec ino) off chunk l o in
      let (e1, got, keeps, can, _) = x.get_ok s.ec ino in
      let (e2, stored, now) = x.put_ok e1 ino b (can ino b (room b w)) in
      let (s', ran, here, freed) =
        under_lock-Freed x k s ino
          (λ ec. do
            (buf, ec1) ← x.get ec ino
            content ← write_content buf off chunk
            ec2 ← x.put ec1 ino content
            some ((ok, length chunk), ec2))
          free (rw (got, made, stored) refl) in
      (
        s',
        b,
        ran,
        w,
        λ j. ap (λ v. x.value v j) here ∙ now j ∙ ap (λ v. if ino == j then b else v) (keeps j),
        freed,
      )

  -- What a client writes it reads back at the same offset, and both calls leave the lock free.
  pub read-write :
      (s : Yfs E L) (ino off : ℕ) (chunk : Bytes)
      → k.held s.lc ino ≡ false
      → length chunk ≤ 0x7fffffff
      → off ≤ 0x7fffffff
      → ((b : Bytes) → Written (x.value s.ec ino) off chunk b → x.CanPut s.ec ino b)
      → (s1 s2 : Yfs E L) × (write x k s ino off chunk ≡ some ((ok, length chunk), s1))
        × (read x k s1 ino (length chunk) off ≡ some ((ok, chunk), s2))
        × (k.held s2.lc ino ≡ false)
  read-write s ino off chunk free l o room =
      let (s1, b, wrote, w, stored, freed) = write_lem s ino off chunk free l o room in
      let unlocked : k.held s1.lc ino ≡ false = ground (arith, freed ino) in
      let (s2, ran, _, freed2) = read_lem s1 ino (length chunk) off unlocked in
      let content : x.value s1.ec ino ≡ b = ground (arith, stored ino) in
      (
        s1,
        s2,
        wrote,
        ran
            ∙ ap (λ v. some ((ok, read_content v (length chunk) off), s2)) content
            ∙ ap (λ v. some ((ok, v), s2)) (read_content-Written w),
        ground (arith, freed2 ino),
      )

  -- `setattr` makes the content as long as the size that it is given: a prefix of it, or the content
  -- with zero bytes behind it; every other extent is as it was, and the lock is free again.
  setattr_lem :
      (s : Yfs E L) (ino size : ℕ)
      → k.held s.lc ino ≡ false
      → x.CanPut s.ec ino (resize (x.value s.ec ino) size)
      → (s' : Yfs E L) × (setattr x k s ino size ≡ some (ok, s'))
        × Stored s.ec s'.ec ino (resize (x.value s.ec ino) size)
        × Freed x k s.lc s'.lc ino
  unfolding setattr
  setattr_lem s ino size free room =
      let b = resize (x.value s.ec ino) size in
      let (e1, got, keeps, can, _) = x.get_ok s.ec ino in
      let (e2, stored, now) = x.put_ok e1 ino b (can ino b room) in
      let (s', ran, here, freed) =
        under_lock-Freed x k s ino
          (λ ec. do
            (buf, ec1) ← x.get ec ino
            ec2 ← x.put ec1 ino (resize buf size)
            some (ok, ec2))
          free (rw (got, stored) refl) in
      (
        s',
        ran,
        λ j. ap (λ v. x.value v j) here ∙ now j ∙ ap (λ v. if ino == j then b else v) (keeps j),
        freed,
      )
