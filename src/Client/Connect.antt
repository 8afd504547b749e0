-- ===== src/Client/Connect.antt =====
-- What `main` of src/client.cpp comes to, as far as its socket connects.
use protobuf_sandbox.Prelude.{Bool, false, ◌&&◌, none, some}
use protobuf_sandbox.Socket.{Connecting}
use protobuf_sandbox.Socket
use protobuf_sandbox.Command.Messages.{Command}
use protobuf_sandbox.Client.{Client}

-- The system gives a socket, sets its option and connects it.
abbrev pub connected : Connecting → Bool
connected a = elim a.fd [ none ↦ false | some fd ↦ a.option_set && a.connects ]
