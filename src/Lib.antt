-- ===== src/Lib.antt =====
-- A verification library of CSE-labs: the distributed file system of lab41 and the key-value
-- database ydb on top of it.
--
-- The program's parts. inode_manager keeps a file system of inodes and blocks on a disk in memory;
-- extent_server offers it as extents over RPC, and extent_client caches them. lock_server is a lock
-- service whose acquire blocks; lock_server_cache lends locks to clients that keep them until they
-- are asked to give them back. yfs_client, under fuse.cc, makes directories, files and symbolic
-- links of extents under locks. The ydb servers keep a value for each key in the extent whose
-- number is the key's hash: one without transactions, one with optimistic ones, one with two-phase
-- locking.
--
-- Which file models which part, with the paths from the repository's root:
--   Fs/Disk       lab41/inode_manager.h and .cc, class disk and class block_manager: the blocks are
--                 a function from block numbers to bytes, the bitmap a function into numbers
--   Fs/Inode      struct inode, and how it lies in a block (Fs/Words: words in bytes)
--   Fs/Manager    class inode_manager: get_inode, put_inode, get_nth_blockid, alloc_nth_block,
--                 write_file, read_file; the proofs stand in Fs/Manager/*
--   Fs/Inodes     class inode_manager: alloc_inode, free_inode, remove_file, getattr, the
--                 constructor; the proofs stand in Fs/Inodes/*
--   Extent        lab41/extent_server.h and .cc, over Fs/Manager and Fs/Inodes
--   Extent/Client lab41/extent_client.h and .cc: the clients with their caches, and the calls that the
--                 server sends them; Extent/Client/Served is one of them as the extents of yfs_client
--   Lock/Server   lab41/lock_server.h and .cc; Lock/Server/Threads is the scheduler of its threads,
--                 Lock/Server/Serial its handlers one after the other
--   Lock/Cache    lab41/lock_server_cache.h and .cc; Lock/Cache/Agreement is the server with clients
--                 that hold locks
--   Lock/Client   lab41/lock_client_cache.h and .cc, for one lock; Lock/Client/Threads is its threads with
--                 the calls of the server
--   Lock/Cluster  the two together: the server of one lock, all its clients and their threads, and the
--                 calls, answers and callbacks between them
--   Ydb           lab41/ydb_protocol.h, the hash of the keys, and the extent client as a record of
--                 operations and laws, which Ydb/Served fills by a client of the extent server
--   Ydb/Basic     lab41/ydb_server.cc
--   Ydb/Occ       lab41/ydb_server_occ.h and .cc; it locks through the operations of Lock/Server
--   Ydb/Locking   lab41/ydb_server_2pl.h and .cc; Ydb/Locking/Graph is its search for cycles
--   Rpc/Marshall  lab41/rpc/marshall.h and the operators of lab41/rpc/rpc.cc: arguments and headers as
--                 bytes; Rpc/Marshall/Containers is the vectors and maps
--   Rpc/Connection
--                 lab41/rpc/connection.h and .cc: messages over a stream of bytes; Rpc/Connection/Stream
--                 is two connections and the stream between them
--   Rpc/Stubs     the templates rpcc::call and rpcs::reg of lab41/rpc/rpc.h: a call from its arguments
--                 to its reply
--   Rpc/Window, Rpc/Server
--                 class rpcs of lab41/rpc/rpc.cc: the window of replies, and dispatch
--   Rpc/Caller    class rpcc: the numbers of calls, and what it tells the server of their replies
--   Rpc/Calls     a client and the server over a network that loses, repeats and reorders messages
--   Yfs/Numbers   yfs_client::filename and n2i, in lab41/yfs_client.cc
--   Yfs/Dirs      the format of a directory: readdir and lookup
--   Yfs/Buffers   the contents of files: setattr, read and write
--   Yfs/Services  what yfs_client calls, as records of operations and laws: the extents, which
--                 Extent/Client/Served fills, and the locks, which Lock/Server fills
--   Yfs/Client    lab41/yfs_client.h and .cc: every operation over these services
--   Yfs/Fuse      lab41/fuse.cc: the handlers of the FUSE front end
-- Prelude has the Boolean tests, lists and byte strings that they share, StdMap the association
-- lists that stand for std::map and std::set.
--
-- The conventions. A function that fails an assert or a VERIFY, calls exit, reads through a null
-- pointer or would read memory that nobody has written returns none; the 500 bytes that the block
-- manager copies from behind its superblock are an argument instead. Integers are natural numbers
-- with the wrap-around of the source written out. A handler under a mutex is one step, up to the
-- wait or the unlock; the callback that it sends after the unlock is part of its result. Printing is
-- left out.
--
-- The bounds. Every loop of the source is a recursion on its number of rounds (the blocks from
-- FILEBLOCK to BLOCK_NUM, the INODE_NUM inodes, the blocks of a file) or on the list that it walks,
-- so nothing runs out of fuel. Only readdir counts its rounds with fuel, one more than the bytes of
-- the directory; Yfs/Dirs shows that more changes nothing. A content with a colon and no slash behind
-- it, on which the loop of the source never ends, is none. The search dfs of ydb_server_2pl is given a
-- depth; Ydb/Locking/Graph shows how much is enough on a graph without cycles.
--
-- The numbers of calls are counted up to 2 ^ 32 and messages up to 2 ^ 28 bytes; the theorems on them
-- say so.
--
-- What is not modelled: the rest of the transport of the calls (opening connections, polling, the
-- pool of threads, timers and retransmission in lab41/rpc), the FUSE library, the clock, the main
-- programs, the testers and the demo, handle.cc, and lock_client and ydb_client, which only send
-- calls. A condition variable wakes a thread only when it is signalled. Between the clients and the
-- server of cached locks each call is served once and each callback handled once. The ydb
-- servers call a remove that extent_client does not have: it is a parameter. A call of an extent
-- client runs to its end before the next one begins, but in Extent/Client/Race, and every client is
-- reached by the calls of the server.
pub mod Prelude
pub mod StdMap
pub mod Lock
pub mod Fs
pub mod Ydb
pub mod Yfs
pub mod Extent
pub mod Rpc
