-- ===== src/Yfs/Client.antt =====
-- yfs_client.h and yfs_client.cc: the operations. `none` is a call that faults or never returns. A
-- result that the source leaves in the caller's variable is part of what the operation returns.
pub mod Locked
pub mod Files
pub mod Names
pub mod Tests
use cse_labs.Prelude.{
  ℕ, Bool, true, false, Option, none, some, List, [], ◌==◌, Bytes, length, ◌>>=◌,
}
use cse_labs.Fs.Inodes.{Attr, t_dir, t_file, t_symlink}
use cse_labs.Yfs.Dirs.{Dirent, parse_dir, find_name}
use cse_labs.Yfs.Buffers.{resize, read_content, write_content}
use cse_labs.Yfs.Services.{Extents, Locks}

-- `yfs_client::xxstatus`
pub data Status : Type 0 where
  ok rpcerr noent ioerr exist : Status

-- `fileinfo`; `dirinfo` has no size.
pub record FileInfo : Type 0 where
  pub size : ℕ
  pub atime : ℕ
  pub mtime : ℕ
  pub ctime : ℕ

pub record DirInfo : Type 0 where
  pub atime : ℕ
  pub mtime : ℕ
  pub ctime : ℕ

abbrev file_info : Attr → FileInfo
file_info a = record { size = a.size; atime = a.atime; mtime = a.mtime; ctime = a.ctime }

abbrev dir_info : Attr → DirInfo
dir_info a = record { atime = a.atime; mtime = a.mtime; ctime = a.ctime }

pub record Yfs (E L : Type 0) : Type 0 where
  pub ec : E
  pub lc : L

module _ {E L : Type 0} (x : Extents E) (k : Locks L) where
  -- `lc->acquire(i)`, the work, and `lc->release(i)` on every path.
  unfoldable pub under_lock {ℓ} :
      {R : Type ℓ} → Yfs E L → ℕ → (E → Option (R × E)) → Option (R × Yfs E L)
  under_lock s i work = do
    lc ← k.acquire s.lc i
    (r, ec) ← work s.ec
    some (r, record { ec = ec; lc = k.release lc i })

  -- `yfs_client::yfs_client`: the root directory is emptied.
  unfoldable new_yfs_client : Yfs E L → Option (Status × Yfs E L)
  new_yfs_client s = under_lock s 1 λ ec. do ec' ← x.put ec 1 []; some (ok, ec')

  unfoldable pub kind_is : ℕ → E → ℕ → Option (Bool × E)
  kind_is t ec i = do
    (found, ec') ← x.getattr ec i
    some (elim found [ none ↦ false | some a ↦ a.type == t ], ec')

  unfoldable pub isfile : Yfs E L → ℕ → Option (Bool × Yfs E L)
  isfile s inum = under_lock s inum λ ec. kind_is t_file ec inum

  unfoldable pub isdir : Yfs E L → ℕ → Option (Bool × Yfs E L)
  isdir s inum = under_lock s inum λ ec. kind_is t_dir ec inum

  unfoldable issymlink : Yfs E L → ℕ → Option (Bool × Yfs E L)
  issymlink s inum = under_lock s inum λ ec. kind_is t_symlink ec inum

  unfoldable pub getfile : Yfs E L → ℕ → Option ((Status × Option FileInfo) × Yfs E L)
  getfile s inum = under_lock s inum λ ec. do
    (found, ec') ← x.getattr ec inum
    some (elim found [ none ↦ (ioerr, none) | some a ↦ (ok, some (file_info a)) ], ec')

  unfoldable pub getdir : Yfs E L → ℕ → Option ((Status × Option DirInfo) × Yfs E L)
  getdir s inum = under_lock s inum λ ec. do
    (found, ec') ← x.getattr ec inum
    some (elim found [ none ↦ (ioerr, none) | some a ↦ (ok, some (dir_info a)) ], ec')

  unfoldable pub setattr : Yfs E L → ℕ → ℕ → Option (Status × Yfs E L)
  setattr s ino size =
      under_lock s ino
        λ ec. do (buf, ec1) ← x.get ec ino; ec2 ← x.put ec1 ino (resize buf size); some (ok, ec2)

  unfoldable pub readdir : E → ℕ → Option (List Dirent × E)
  readdir ec dir = do (buf, ec') ← x.get ec dir; entries ← parse_dir buf; some (entries, ec')

  -- `found` and `ino_out` are one option.
  unfoldable pub lookup : E → ℕ → Bytes → Option (Option ℕ × E)
  unfolding readdir
  lookup ec parent name = do (entries, ec') ← readdir ec parent; some (find_name entries name, ec')

  -- `create` and `mkdir`, which differ in the type of the inode.
  unfoldable pub create_in : ℕ → E → ℕ → Bytes → Option ((Status × Option ℕ) × E)
  create_in type ec parent name = do
    (found, ec1) ← lookup ec parent name
    elim found [
      | some _ ↦ some ((exist, none), ec1)
      | none ↦ do (id, ec2) ← x.create ec1 type name parent; some ((ok, some id), ec2)
    ]

  unfoldable pub create : Yfs E L → ℕ → Bytes → Option ((Status × Option ℕ) × Yfs E L)
  unfolding under_lock
  create s parent name = under_lock s parent λ ec. create_in t_file ec parent name

  unfoldable pub mkdir : Yfs E L → ℕ → Bytes → Option ((Status × Option ℕ) × Yfs E L)
  unfolding under_lock
  mkdir s parent name = under_lock s parent λ ec. create_in t_dir ec parent name

  unfoldable pub read : Yfs E L → ℕ → ℕ → ℕ → Option ((Status × Bytes) × Yfs E L)
  unfolding under_lock
  read s ino size off =
      under_lock s ino
        λ ec. do (buf, ec') ← x.get ec ino; some ((ok, read_content buf size off), ec')

  -- With the number of bytes written.
  unfoldable pub write : Yfs E L → ℕ → ℕ → Bytes → Option ((Status × ℕ) × Yfs E L)
  unfolding under_lock
  write s ino off chunk = under_lock s ino λ ec. do
    (buf, ec1) ← x.get ec ino
    content ← write_content buf off chunk
    ec2 ← x.put ec1 ino content
    some ((ok, length chunk), ec2)

  unfoldable pub symlink : Yfs E L → ℕ → Bytes → Bytes → Option ((Status × Option ℕ) × Yfs E L)
  symlink s parent name link = under_lock s parent λ ec. do
    (found, ec1) ← lookup ec parent name
    elim found [
      | some _ ↦ some ((exist, none), ec1)
      | none ↦ do (id, ec2) ← x.create_symlink ec1 name link parent; some ((ok, some id), ec2)
    ]

  -- A name that is not there leaves `inum` without a value, and it is used.
  unfoldable pub unlink : Yfs E L → ℕ → Bytes → Option (Status × Yfs E L)
  unlink s parent name = under_lock s parent λ ec. do
    (found, ec1) ← lookup ec parent name
    elim found [ none ↦ none | some inum ↦ do ec2 ← x.remove ec1 inum parent name; some (ok, ec2) ]

  unfoldable pub readlink : Yfs E L → ℕ → Option ((Status × Bytes) × Yfs E L)
  readlink s ino = under_lock s ino λ ec. do (buf, ec') ← x.get ec ino; some ((ok, buf), ec')
