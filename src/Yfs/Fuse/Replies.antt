-- ===== src/Yfs/Fuse/Replies.antt =====
-- fuse.cc: what the handlers reply.
use cse_labs.Prelude.{ℕ, Option, List, ◌≤◌, ◌≡◌, refl, false, some, Bytes, length}
use cse_labs.Yfs.Buffers.Written.{Written}
use cse_labs.Yfs.Services.{Extents, Locks}
use cse_labs.Yfs.Client.{Yfs}
use cse_labs.Yfs.Client.Files.{read-write}
use cse_labs.Yfs.Dirs.{Dirent, Holds, find_name}
use cse_labs.Yfs.Client.Locked.{Freed}
use cse_labs.Yfs.Client.Names.{create_exist, mkdir_exist, symlink_exist}
use cse_labs.Yfs.Fuse.{
  Reply, reply_err, eexist, fuseserver_create, fuseserver_mknod, fuseserver_mkdir,
  fuseserver_symlink, reply_buf, reply_write, fuseserver_read, fuseserver_write,
}

module _ {E L : Type 0} (x : Extents E) (k : Locks L) (add_dirent : Bytes → ℕ → ℕ → Bytes) where
  -- What is written through FUSE is read back through FUSE: on a file whose lock is free, with a size
  -- and an offset that fit an int and with room for the new content, the write replies its size, a
  -- read at the same offset replies exactly the bytes, and the lock is free afterwards.
  pub fuseserver_read-fuseserver_write :
      (s : Yfs E L) (ino off : ℕ) (buf : Bytes)
      → k.held s.lc ino ≡ false
      → length buf ≤ 0x7fffffff
      → off ≤ 0x7fffffff
      → ((b : Bytes) → Written (x.value s.ec ino) off buf b → x.CanPut s.ec ino b)
      → (s1 s2 : Yfs E L) × (fuseserver_write x k add_dirent s ino buf off
          ≡ some (reply_write (length buf), s1))
        × (fuseserver_read x k add_dirent s1 ino (length buf) off ≡ some (reply_buf buf, s2))
        × (k.held s2.lc ino ≡ false)
  unfolding fuseserver_read fuseserver_write
  fuseserver_read-fuseserver_write s ino off buf free l o room =
      let (s1, s2, wrote, got, unlocked) = read-write x k s ino off buf free l o room in
      (s1, s2, rw wrote refl, rw got refl, unlocked)

  -- The handler replies EEXIST; no content changes, and the lock is free afterwards.
  abbrev pub RefusedReply : Yfs E L → ℕ → Option (Reply × Yfs E L) → Type 0
  RefusedReply s parent r =
      (s' : Yfs E L) × (r ≡ some (reply_err eexist, s'))
      × ((j : ℕ) → x.value s'.ec j ≡ x.value s.ec j)
      × Freed x k s.lc s'.lc parent

  -- For a name that the directory has, on a free lock, create, mknod, mkdir and symlink all reply EEXIST;
  -- no content changes, and the lock is free afterwards.
  pub existing_name :
      (s : Yfs E L) (parent : ℕ) (name target : Bytes) (es : List Dirent) (inum : ℕ)
      → k.held s.lc parent ≡ false
      → Holds (x.value s.ec parent) es
      → find_name es name ≡ some inum
      → RefusedReply s parent (fuseserver_create x k add_dirent s parent name)
        × RefusedReply s parent (fuseserver_mknod x k add_dirent s parent name)
        × RefusedReply s parent (fuseserver_mkdir x k add_dirent s parent name)
        × RefusedReply s parent (fuseserver_symlink x k add_dirent s target parent name)
  unfolding fuseserver_create fuseserver_mknod fuseserver_mkdir fuseserver_symlink
  existing_name s parent name target es inum free h old =
      let (s1, e1, kept1, freed1) = create_exist x k s parent name es inum free h old in
      let (s2, e2, kept2, freed2) = mkdir_exist x k s parent name es inum free h old in
      let (s3, e3, kept3, freed3) = symlink_exist x k s parent name target es inum free h old in
      (
        (s1, rw e1 refl, kept1, freed1),
        (s1, rw e1 refl, kept1, freed1),
        (s2, rw e2 refl, kept2, freed2),
        (s3, rw e3 refl, kept3, freed3),
      )
