-- ===== src/Socket/Types.antt =====
-- The enumerations of `ISocket` (src/ISocket.h).
pub data Mode : Type 0 where
  client server : Mode

pub data State : Type 0 where
  unknown no_connection server_port_setup server_listening connected : State
