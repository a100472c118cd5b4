-- ===== src/Lock/Protocol.antt =====
-- lock_protocol.h: the status codes of the lock service.
pub data Status : Type 0 where
  ok retry rpcerr noent ioerr deadlock : Status
