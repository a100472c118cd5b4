-- ===== src/Yfs/Fuse/Tests.antt =====
-- A write and a read of a file through FUSE.
use cse_labs.Prelude.{ℕ, ◌≤◌, length, subst, refl, ◌≡◌, false, some, [], ◌∷◌, arith, Bytes}
use cse_labs.Lock.Server.{LockServer, locked}
use cse_labs.Yfs.Services.{lock_server_locks}
use cse_labs.Yfs.Client.{Yfs}
use cse_labs.Extent.Client.{World}
use cse_labs.Yfs.Client.Tests.{
  extents, world, world-IsCoherent, client, unlocked, entries, root-Holds, has_a,
}
use cse_labs.Fs.Inode.{AreBytes}
use cse_labs.Extent
use cse_labs.Extent.{data_of}
use cse_labs.StdMap
use cse_labs.Extent.Tests.{slot-CanWrite}
use cse_labs.Yfs.Buffers.Written.{Written}
use cse_labs.Yfs.Fuse.{
  reply_buf, reply_write, fuseserver_read, fuseserver_write, fuseserver_create, fuseserver_mknod,
  fuseserver_mkdir, fuseserver_symlink,
}
use cse_labs.Yfs.Fuse.Replies.{fuseserver_read-fuseserver_write, RefusedReply, existing_name}

-- The name alone.
abbrev add_dirent : Bytes → ℕ → ℕ → Bytes
add_dirent name ino size = name

-- The file 2 of the new disk is empty.
empty_file : extents.value world 2 ≡ []
unfolding Extent.Client.get Extent.get data_of StdMap.lookup
empty_file = refl

two_bytes : (b : Bytes) → Written [] 0 (106 ∷ 107 ∷ []) b → (length b ≤ 512) × AreBytes b
two_bytes [] w = absurd (omega (arith, w.size))
two_bytes (x ∷ []) w = absurd (omega (arith, w.size))
two_bytes (x ∷ y ∷ z ∷ b) w = absurd (omega (arith, w.size))
two_bytes (x ∷ y ∷ []) w = (
  omega arith,
  (omega (arith, w.inside 0 (omega arith)), (omega (arith, w.inside 1 (omega arith)), tt)),
)

room_for :
    (b : Bytes) → Written (extents.value world 2) 0 (106 ∷ 107 ∷ []) b → extents.CanPut world 2 b
room_for b w =
    let (short, bytes) = two_bytes b (subst (λ o. Written o 0 (106 ∷ 107 ∷ []) b) empty_file w) in
    (world-IsCoherent, slot-CanWrite 2 b (omega arith) (omega arith) short bytes)

fuseserver_read-fuseserver_write_example :
    (s1 s2 : Yfs World LockServer) × (fuseserver_write extents lock_server_locks add_dirent client 2
        (106 ∷ 107 ∷ [])
        0
      ≡ some (reply_write 2, s1))
    × (fuseserver_read extents lock_server_locks add_dirent s1 2 2 0
        ≡ some (reply_buf (106 ∷ 107 ∷ []), s2))
    × (locked s2.lc 2 ≡ false)
fuseserver_read-fuseserver_write_example =
    fuseserver_read-fuseserver_write extents lock_server_locks add_dirent client 2 0
      (106 ∷ 107 ∷ []) (unlocked 2) (omega arith) (omega arith) room_for

existing_name_example :
    RefusedReply extents lock_server_locks add_dirent client 1
      (fuseserver_create extents lock_server_locks add_dirent client 1 (97 ∷ []))
    × RefusedReply extents lock_server_locks add_dirent client 1
        (fuseserver_mknod extents lock_server_locks add_dirent client 1 (97 ∷ []))
    × RefusedReply extents lock_server_locks add_dirent client 1
        (fuseserver_mkdir extents lock_server_locks add_dirent client 1 (97 ∷ []))
    × RefusedReply extents lock_server_locks add_dirent client 1
        (fuseserver_symlink extents lock_server_locks add_dirent client (98 ∷ []) 1 (97 ∷ []))
existing_name_example =
    existing_name extents lock_server_locks add_dirent client 1 (97 ∷ []) (98 ∷ []) entries 2
      (unlocked 1) root-Holds has_a
