-- ===== src/Yfs/Fuse.antt =====
-- fuse.cc: the handlers of the FUSE front end, over the operations of Yfs/Client. A handler sends one
-- reply, which it returns here; `add_dirent` is what the FUSE library writes for an entry of a
-- directory (its name, its number, and the size that the buffer then has).
pub mod Replies
mod Tests
use cse_labs.Prelude.{
  ℕ, ◌+◌, ◌-◌, ◌≡◌, Bool, true, false, ◌||◌, ◌==◌, Option, none, some, List, [], ◌∷◌, ◌++◌, ltb,
  if◌then◌else◌, Bytes, length, take, drop, min, ◌>>=◌,
}
use cse_labs.Yfs.Dirs.{Dirent}
use cse_labs.Yfs.Services.{Extents, Locks}
use cse_labs.Yfs.Client.{
  Yfs, Status, ok, exist, noent, FileInfo, DirInfo, isfile, isdir, getfile, getdir,
}
use cse_labs.Yfs.Client

-- The type and the permissions of `st_mode`.
pub data FileType : Type 0 where
  no_type regular directory symbolic : FileType

-- `struct stat`, the fields that are set.
pub record Stat : Type 0 where
  pub ino : ℕ
  pub type : FileType
  pub permissions : ℕ
  pub nlink : ℕ
  pub atime : ℕ
  pub mtime : ℕ
  pub ctime : ℕ
  pub size : ℕ

pub data Errno : Type 0 where
  no_error enoent eexist enotdir enotempty enosys : Errno

-- `fuse_entry_param`; its timeouts and its generation are 0.
pub record Entry : Type 0 where
  pub ino : ℕ
  pub attr : Stat

pub data Reply : Type 0 where
  reply_err : Errno → Reply
  reply_attr : Stat → Reply
  reply_buf : Bytes → Reply
  reply_write : ℕ → Reply
  reply_entry reply_create : Entry → Reply
  reply_open : Reply
  reply_readlink : Bytes → Reply
  reply_statfs : ℕ → ℕ → Reply

-- `bzero(&st)` and the number.
abbrev empty_stat : ℕ → Stat
empty_stat inum = record {
  ino = inum;
  type = no_type;
  permissions = 0;
  nlink = 0;
  atime = 0;
  mtime = 0;
  ctime = 0;
  size = 0;
}

-- What `getattr` makes of a status and the attributes; without them `st` is left as it was.
abbrev file_stat : ℕ → FileType → ℕ → Status × Option FileInfo → Status × Stat
file_stat inum type permissions (status, none) = (status, empty_stat inum)
file_stat inum type permissions (status, some i) = (
  status,
  record {
    ino = inum;
    type = type;
    permissions = permissions;
    nlink = 1;
    atime = i.atime;
    mtime = i.mtime;
    ctime = i.ctime;
    size = i.size;
  },
)

abbrev dir_stat : ℕ → Status × Option DirInfo → Status × Stat
dir_stat inum (status, none) = (status, empty_stat inum)
dir_stat inum (status, some i) = (
  status,
  record (empty_stat inum) {
    type = directory;
    permissions = 0x1ff;
    nlink = 2;
    atime = i.atime;
    mtime = i.mtime;
    ctime = i.ctime;
  },
)

-- The error of a creation that failed.
abbrev create_error : Status → Reply
create_error exist = reply_err eexist
create_error _ = reply_err enoent

-- `c_str`: a C string ends at the first zero byte.
unfoldable c_str : Bytes → Bytes
c_str [] = []
c_str (c ∷ cs) = let rest = c_str cs in if c == 0 then [] else c ∷ rest

unfoldable reply_buf_limited : Bytes → ℕ → ℕ → Reply
reply_buf_limited buf off maxsize =
    if ltb off (length buf)
    then reply_buf (take (min (length buf - off) maxsize) (drop off buf))
    else reply_buf []

module _ {E L : Type 0} (x : Extents E) (k : Locks L) (add_dirent : Bytes → ℕ → ℕ → Bytes) where
  -- `dirbuf_add`; the size is that of the buffer with the entry.
  unfoldable dirbuf_add : Bytes → Bytes → ℕ → Bytes
  dirbuf_add b name ino = b ++ add_dirent name ino (length b)

  unfoldable add_entries : Bytes → List Dirent → Bytes
  add_entries b [] = b
  add_entries b (e ∷ es) = add_entries (dirbuf_add b (c_str e.name) e.inum) es

  unfoldable pub getattr : Yfs E L → ℕ → Option ((Status × Stat) × Yfs E L)
  getattr s inum = do
    (file, s1) ← isfile x k s inum
    if file
        then (do (r, s2) ← getfile x k s1 inum; some (file_stat inum regular 0x1b6 r, s2))
        else (do
          (dir, s2) ← isdir x k s1 inum
          if dir
              then (do (r, s3) ← getdir x k s2 inum; some (dir_stat inum r, s3))
              else (do (r, s3) ← getfile x k s2 inum; some (file_stat inum symbolic 0x1ff r, s3)))

  abbrev attr_reply : Status × Stat → Reply
  attr_reply (ok, st) = reply_attr st
  attr_reply (_, st) = reply_err enoent

  unfoldable fuseserver_getattr : Yfs E L → ℕ → Option (Reply × Yfs E L)
  fuseserver_getattr s ino = do (r, s1) ← getattr s ino; some (attr_reply r, s1)

  -- The size is set where its bit is; the replies do not depend on the statuses.
  unfoldable fuseserver_setattr : Yfs E L → ℕ → Bool → Bool → Bool → ℕ → Option (Reply × Yfs E L)
  fuseserver_setattr s ino set_size set_atime set_mtime size =
      if set_size || set_atime || set_mtime
      then (do
        s1 ← (if set_size then (Client.setattr x k s ino size >>= λ (r, s1). some s1) else some s)
        (r, s2) ← getattr s1 ino
        some (reply_attr r.1, s2))
      else some (reply_err enosys, s)

  abbrev read_reply : Status × Bytes → Reply
  read_reply (ok, buf) = reply_buf buf
  read_reply (_, buf) = reply_err enoent

  unfoldable pub fuseserver_read : Yfs E L → ℕ → ℕ → ℕ → Option (Reply × Yfs E L)
  fuseserver_read s ino size off = do
    (r, s1) ← Client.read x k s ino size off
    some (read_reply r, s1)

  abbrev write_reply : Status → ℕ → Reply
  write_reply ok size = reply_write size
  write_reply _ size = reply_err enoent

  unfoldable pub fuseserver_write : Yfs E L → ℕ → Bytes → ℕ → Option (Reply × Yfs E L)
  fuseserver_write s ino buf off = do
    (r, s1) ← Client.write x k s ino off buf
    some (write_reply r.0 (length buf), s1)

  -- `fuseserver_createhelper` after `create` or `mkdir`: the attributes of what was made.
  unfoldable with_attr : (Status × Option ℕ) × Yfs E L → Option ((Status × Option Entry) × Yfs E L)
  unfolding getattr
  with_attr ((ok, some inum), s) = do
    ((ret, st), s1) ← getattr s inum
    some ((ret, some (record { ino = inum; attr = st })), s1)
  with_attr ((status, _), s) = some ((status, none), s)

  abbrev entry_reply : (Entry → Reply) → Status × Option Entry → Reply
  entry_reply reply (ok, some e) = reply e
  entry_reply reply (status, _) = create_error status

  unfoldable pub fuseserver_create : Yfs E L → ℕ → Bytes → Option (Reply × Yfs E L)
  unfolding with_attr
  fuseserver_create s parent name = do
    made ← Client.create x k s parent name
    (r, s2) ← with_attr made
    some (entry_reply reply_create r, s2)

  unfoldable pub fuseserver_mknod : Yfs E L → ℕ → Bytes → Option (Reply × Yfs E L)
  unfolding with_attr
  fuseserver_mknod s parent name = do
    made ← Client.create x k s parent name
    (r, s2) ← with_attr made
    some (entry_reply reply_entry r, s2)

  unfoldable pub fuseserver_mkdir : Yfs E L → ℕ → Bytes → Option (Reply × Yfs E L)
  unfolding with_attr
  fuseserver_mkdir s parent name = do
    made ← Client.mkdir x k s parent name
    (r, s2) ← with_attr made
    some (entry_reply reply_entry r, s2)

  -- The attributes of a name that was found, whatever their status.
  unfoldable found_entry : Yfs E L → ℕ → Option (Reply × Yfs E L)
  unfolding getattr
  found_entry s ino = do
    (r, s1) ← getattr s ino
    some (reply_entry (record { ino = ino; attr = r.1 }), s1)

  unfoldable fuseserver_lookup : Yfs E L → ℕ → Bytes → Option (Reply × Yfs E L)
  unfolding found_entry
  fuseserver_lookup s parent name = do
    (found, ec) ← Client.lookup x k s.ec parent name
    elim found [
      | none ↦ some (reply_err enoent, record s { ec = ec })
      | some ino ↦ found_entry (record s { ec = ec }) ino
    ]

  unfoldable fuseserver_readdir : Yfs E L → ℕ → ℕ → ℕ → Option (Reply × Yfs E L)
  unfolding add_entries reply_buf_limited
  fuseserver_readdir s inum size off = do
    (dir, s1) ← isdir x k s inum
    if dir
        then (do
          (entries, ec) ← Client.readdir x k s1.ec inum
          some (reply_buf_limited (add_entries [] entries) off size, record s1 { ec = ec }))
        else some (reply_err enotdir, s1)

  abbrev fuseserver_open : Yfs E L → Option (Reply × Yfs E L)
  fuseserver_open s = some (reply_open, s)

  abbrev unlink_reply : Status → Reply
  unlink_reply ok = reply_err no_error
  unlink_reply noent = reply_err enoent
  unlink_reply _ = reply_err enotempty

  unfoldable fuseserver_unlink : Yfs E L → ℕ → Bytes → Option (Reply × Yfs E L)
  fuseserver_unlink s parent name = do
    (r, s1) ← Client.unlink x k s parent name
    some (unlink_reply r, s1)

  unfoldable pub fuseserver_symlink : Yfs E L → Bytes → ℕ → Bytes → Option (Reply × Yfs E L)
  unfolding found_entry
  fuseserver_symlink s link parent name = Client.symlink x k s parent name link >>= λ (r, s1).
      elim r.1 [ none ↦ some (create_error r.0, s1) | some inum ↦ found_entry s1 inum ]

  abbrev readlink_reply : Status × Bytes → Reply
  readlink_reply (ok, buf) = reply_readlink (c_str buf)
  readlink_reply (_, buf) = reply_err enoent

  unfoldable fuseserver_readlink : Yfs E L → ℕ → Option (Reply × Yfs E L)
  fuseserver_readlink s ino = do (r, s1) ← Client.readlink x k s ino; some (readlink_reply r, s1)

  abbrev fuseserver_statfs : Yfs E L → Option (Reply × Yfs E L)
  fuseserver_statfs s = some (reply_statfs 255 512, s)
