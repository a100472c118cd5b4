-- ===== src/Extent/Client/Race.antt =====
-- extent_client::get, when a put of another client comes between the answer of the server and the
-- client's own store into its cache.
use cse_labs.Prelude.{
  ℕ, ◌*◌, ◌^◌, ◌<◌, ◌≡◌, refl, ap, ◌∙◌, some, arith, Bytes, length, bytes_key, nat_key,
}
use cse_labs.StdMap.{lookup, insert, lookup-insert}
use cse_labs.Fs.Disk.{maxfile}
use cse_labs.Fs.Inode.{Inode, AreBytes}
use cse_labs.Fs.Manager.Content.{FileAt, HasRoom}
use cse_labs.Extent.Cache.{IsStack, data-put}
use cse_labs.Extent.{Stack, data_of, register, update_handler, broadcast}
use cse_labs.Extent
use cse_labs.Extent.Client.{Client, World, answered, set_client, get_called, get_returned, get, put}
use cse_labs.Extent.Client.Coherence.{get_hit}
use cse_labs.Extent.Client.Content.{own_cache}

-- A reader whose `get` was answered before another client's put, and that stores the answer after it,
-- has a stale cache: the put succeeds, the server holds the new content, and the reader reads the old
-- one. The conditions are those of the put: the file is laid out, its data is shorter than the
-- largest file, and there is room on the disk.
pub stale_get :
    (w : World) (reader writer : Bytes) (eid : ℕ) (buf : Bytes) (t : Stack) {ino : Inode}
    → eid < 2 ^ 31
    → FileAt w.server.im eid ino
    → length buf < maxfile * 512
    → HasRoom w.server.im ino (length buf)
    → AreBytes buf
    → IsStack t
    → (w' : World) × (put (get_called w reader eid).0 writer eid buf t ≡ some w')
      × (data_of w'.server eid ≡ buf)
      × ((get (get_returned w' reader eid (get_called w reader eid).1) reader eid).1
          ≡ data_of w.server eid)
unfolding put Extent.get register
stale_get w reader writer eid buf t small at len room bytes ts =
    let (s', a, done, _, read) =
      data-put (get_called w reader eid).0.server writer eid buf t small at len room bytes ts in
    let calls =
      broadcast (λ k. update_handler k eid a buf) (get_called w reader eid).0.server.clients eid in
    let w' = answered w s' calls in
    let old = data_of w.server eid in
    let c : Client = record (w'.clients reader) {
      data_cache = insert eid old (w'.clients reader).data_cache;
    } in
    let cached : lookup eid (set_client w'.clients reader c reader).data_cache ≡ some old =
      ap (λ k. lookup eid k.data_cache) (own_cache w'.clients reader c)
      ∙ ground (arith, lookup-insert eid eid old (w'.clients reader).data_cache) in
    (
      w',
      rw done refl,
      read eid ∙ ground arith,
      ap (λ r. r.1) (get_hit (get_returned w' reader eid old) reader eid cached),
    )
