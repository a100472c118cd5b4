-- ===== src/Extent/Client/Creation.antt =====
-- extent_client::createFileAndDir: what one client reads after it, while the other clients rest.
use cse_labs.Prelude.{
  ℕ, ◌^◌, ◌%◌, ◌≡◌, ◌≢◌, refl, false, sym, ap, ◌∙◌, some, arith, Bytes, bytes_key, nat_key, ◌++◌,
  ◌==◌, given_answer, List,
}
use cse_labs.StdMap.{insert, lookup-insert}
use cse_labs.Fs.Disk.{BlockManager}
use cse_labs.Fs.Inode.{Inode}
use cse_labs.Fs.Manager.{read_file, write_file}
use cse_labs.Fs.Manager.Content.{FileAt, get_inode-found}
use cse_labs.Fs.Manager.Others.{Disjoint}
use cse_labs.Fs.Manager.RoundTrip.{read_file-write_file}
use cse_labs.Fs.Manager.Isolation.{write_file-isolates}
use cse_labs.Fs.Inodes.{alloc_inode}
use cse_labs.Yfs.Dirs.{dir_entry}
use cse_labs.Extent.Cache.{IsStack, attributes, update_cache_read, getattr-FileAt}
use cse_labs.Extent.{
  update_handler, broadcast, Call, Server, Stack, mask, register, data_of, touch_data, enter_name,
  zero_attr, update_cache,
}
use cse_labs.Extent
use cse_labs.Extent.Client.{World, answered, create_file_and_dir}
use cse_labs.Extent.Client.Agreement.{IsCoherent}
use cse_labs.Extent.Client.Coherence.{get-IsCoherent, Step-IsCoherent, creates}
use cse_labs.Extent.Client.Content.{content, CanWrite}

-- There is a free inode, and after it is taken the disk has the parent, takes its content with the new
-- entry, and has the new file, apart from the parent.
pub record CanEnter (im : BlockManager) (type parent : ℕ) (name old : Bytes) : Type 0 where
  pub made : BlockManager
  pub id : ℕ
  pub allocated : alloc_inode im type ≡ some (made, id)
  pub directory : CanWrite made parent (old ++ dir_entry name id)
  pub ino : Inode
  pub file : FileAt made id ino
  pub text : Bytes
  pub readable : read_file made id ≡ some (some text)
  pub other : parent ≢ id
  pub apart : Disjoint made directory.ino ino

-- Both files after the write of the parent.
record Entered (r : BlockManager) (parent id : ℕ) (buf text : Bytes) (ino : Inode) : Type 0 where
  directory_read : read_file r parent ≡ some (some buf)
  directory : Inode
  directory_at : FileAt r parent directory
  file_read : read_file r id ≡ some (some text)
  file_at : FileAt r id ino

write-Entered :
    (im : BlockManager) (type parent : ℕ) (name old : Bytes) (t : Stack)
    (c : CanEnter im type parent name old)
    → IsStack t
    → (r : BlockManager) × (write_file c.made parent (old ++ dir_entry name c.id) t.temp t.times
        ≡ some r)
      × Entered r parent c.id (old ++ dir_entry name c.id) c.text c.ino
write-Entered im type parent name old t c ts =
    let d = c.directory in
    let buf = old ++ dir_entry name c.id in
    let (r, e, back, (ino', at, _, _)) =
      read_file-write_file parent buf t.temp t.times d.file d.fits d.room d.bytes
        (ts.temp_length, ts.temp_bytes) ts.times in
    let (r', e', same, there) =
      write_file-isolates parent c.id buf t.temp t.times d.file c.file c.other c.apart d.fits d.room
        d.bytes (ts.temp_length, ts.temp_bytes) ts.times in
    let (kept, found) =
      given_answer (λ k. (read_file k c.id ≡ some (some c.text)) × FileAt k c.id c.ino) (sym e' ∙ e)
        (same ∙ c.readable, there) in
    (
      r,
      e,
      record {
        directory_read = back;
        directory = ino';
        directory_at = at;
        file_read = kept;
        file_at = found;
      },
    )

data-entered :
    (s : Server) (client : Bytes) (parent id : ℕ) (buf text : Bytes)
    → parent ≢ id
    → data_of
        (register
          (record s { data_cache = insert id text (insert parent buf s.data_cache) })
          client
          id)
        parent
      ≡ buf
unfolding data_of register
data-entered s client parent id buf text n = ground (
  arith,
  n,
  lookup-insert id parent text (insert parent buf s.data_cache),
  lookup-insert parent parent buf s.data_cache,
)

-- The name is entered: the server holds the new content of the parent.
enter_name-runs :
    (s : Server) (im : BlockManager) (type parent : ℕ) (client name : Bytes) (t : Stack)
    (c : CanEnter im type parent name (data_of s parent))
    → IsStack t
    → (s' : Server) × (calls : List Call) × (enter_name
          (record s { im = c.made })
          client
          parent
          name
          c.id
          t
        ≡ some (s', calls))
      × (data_of s' parent ≡ data_of s parent ++ dir_entry name c.id)
unfolding enter_name data_of
enter_name-runs s im type parent client name t c ts =
    let buf = data_of s parent ++ dir_entry name c.id in
    let (r, wrote, e) = write-Entered im type parent name (data_of s parent) t c ts in
    let low = get_inode-found c.made c.id c.file.found in
    let plow = c.directory.small in
    let p32 : parent % 2 ^ 32 ≡ parent = omega (arith, plow) in
    let p31 : mask parent ≡ parent = omega (arith, plow) in
    let i31 : mask c.id ≡ c.id = omega (arith, low) in
    let same : data_of (record s { im = c.made }) parent ≡ data_of s parent =
      unfold data_of in refl in
    let s0 : Server = record (touch_data (record s { im = c.made }) parent) { im = r } in
    let first =
      update_cache_read s0 parent buf (attributes e.directory) p31 e.directory_read
        (getattr-FileAt zero_attr e.directory_at) in
    let s1 : Server = record s0 {
      data_cache = insert parent buf s0.data_cache;
      attr_cache = insert parent (attributes e.directory) s0.attr_cache;
    } in
    let second =
      update_cache_read s1 c.id c.text (attributes c.ino) i31 e.file_read
        (getattr-FileAt zero_attr e.file_at) in
    let s2 : Server = record s1 {
      data_cache = insert c.id c.text s1.data_cache;
      attr_cache = insert c.id (attributes c.ino) s1.attr_cache;
    } in
    (
      register s2 client c.id,
      broadcast (λ k. update_handler k parent (attributes e.directory) buf) s0.clients parent
          ++ broadcast (λ k. update_handler k c.id (attributes c.ino) c.text) s1.clients c.id,
      rw (p32, same, wrote, first, second) refl,
      data-entered (record s2 { data_cache = s0.data_cache }) client parent c.id buf c.text c.other,
    )

pub create-content :
    (w : World) (client : Bytes) (type : ℕ) (name : Bytes) (parent : ℕ) (t : Stack)
    → IsCoherent w
    → (c : CanEnter w.server.im type parent name (data_of w.server parent)) → IsStack t
    → (w' : World) × (create_file_and_dir w client type name parent t ≡ some (c.id, w'))
      × (content w' client parent ≡ content w client parent ++ dir_entry name c.id)
      × IsCoherent w'
unfolding create_file_and_dir Extent.create
create-content w client type name parent t h c ts =
    let (s', calls, ran, read) =
      enter_name-runs w.server w.server.im type parent client name t c ts in
    let low = get_inode-found c.made c.id c.file.found in
    let here : (c.id == 1024) ≡ false = ground (arith, low) in
    let w' = answered w s' calls in
    let done : create_file_and_dir w client type name parent t ≡ some (c.id, w') =
      rw (c.allocated, here, ran) refl in
    let h' = Step-IsCoherent (creates w client type name parent t c.id w' done) h in
    (
      w',
      done,
      (get-IsCoherent w' client parent h').1
          ∙ read
          ∙ ap (λ k. k ++ dir_entry name c.id) (sym (get-IsCoherent w client parent h).1),
      h',
    )
