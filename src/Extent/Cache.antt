-- ===== src/Extent/Cache.antt =====
-- The cache of the extent server holds what is on the disk.
use cse_labs.Prelude.{
  ℕ, ◌==◌, if◌then◌else◌, ◌*◌, ◌^◌, ◌<◌, ◌≡◌, refl, some, arith, Bytes, length, bytes_key, nat_key,
}
use cse_labs.StdMap.{insert, lookup-insert}
use cse_labs.Fs.Disk.{BlockManager, maxfile}
use cse_labs.Fs.Inode.{Inode, AreBytes}
use cse_labs.Fs.Manager.{read_file}
use cse_labs.Fs.Manager.Content.{FileAt, HasRoom}
use cse_labs.Fs.Manager.RoundTrip.{read_file-write_file}
use cse_labs.Fs.Inodes.{Attr, attr_of, getattr}
use cse_labs.Extent.{
  Server, Stack, mask, update_cache, register, data_of, put, broadcast, update_handler, zero_attr,
}

-- A buffer and times of `write_file`.
pub record IsStack (w : Stack) : Type 0 where
  pub temp_length : length w.temp ≡ 512
  pub temp_bytes : AreBytes w.temp
  pub times : (w.times.atime < 2 ^ 32) × (w.times.mtime < 2 ^ 32) × (w.times.ctime < 2 ^ 32)

abbrev pub attributes : Inode → Attr
attributes ino = attr_of ino

pub getattr-FileAt :
    {bm : BlockManager} {inum : ℕ} {ino : Inode} (a : Attr)
    → FileAt bm inum ino
    → getattr bm inum a ≡ some (attributes ino)
unfolding getattr
getattr-FileAt a v = rw v.found refl

pub update_cache_read :
    (s : Server) (id : ℕ) (buf : Bytes) (a : Attr)
    → mask id ≡ id
    → read_file s.im id ≡ some (some buf)
    → getattr s.im id zero_attr ≡ some a
    → update_cache s id
      ≡ some (
        record s { data_cache = insert id buf s.data_cache; attr_cache = insert id a s.attr_cache },
        broadcast (λ client. update_handler client id a buf) s.clients id,
      )
unfolding update_cache
update_cache_read s id buf a same r g = rw (same, r, g) refl

-- `put` of data that is shorter than the largest file into a file that is laid out, on a disk with
-- the blocks that it needs more and one to spare: it succeeds, the disk holds the data, every client
-- that knows the extent is sent the data, and the server has it for a `get`, and every other extent as
-- before.
pub data-put :
    (s : Server) (client : Bytes) (id : ℕ) (buf : Bytes) (w : Stack) {ino : Inode}
    → id < 2 ^ 31
    → FileAt s.im id ino
    → length buf < maxfile * 512
    → HasRoom s.im ino (length buf)
    → AreBytes buf
    → IsStack w
    → (s' : Server) × (a : Attr) × (put s client id buf w
        ≡ some (s', broadcast (λ c. update_handler c id a buf) s.clients id))
      × (read_file s'.im id ≡ some (some buf))
      × ((j : ℕ) → data_of s' j ≡ (if id == j then buf else data_of s j))
unfolding put data_of register
data-put s client id buf w {ino} small v len room bytes ws =
    let (im, wrote, back, (ino', at, _, _)) =
      read_file-write_file id buf w.temp w.times v len room bytes (ws.temp_length, ws.temp_bytes)
        ws.times in
    let attr = getattr-FileAt zero_attr at in
    let same : mask id ≡ id = omega arith in
    let cached = update_cache_read (record s { im = im }) id buf (attributes ino') same back attr in
    let a = attributes ino' in
    (
      register
          (record s {
            im = im;
            data_cache = insert id buf s.data_cache;
            attr_cache = insert id a s.attr_cache;
          })
          client id,
      a,
      rw (same, wrote, cached) refl,
      back,
      λ j. ground (arith, lookup-insert id j buf s.data_cache),
    )
