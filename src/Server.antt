-- ===== src/Server.antt =====
-- The server program (src/server.cpp): the reading of the configuration, the start of the command
-- processor, its main loop, and the shutdown. Log lines and sleeps are left out.
pub mod Ending
pub mod Rounds
use protobuf_sandbox.Prelude.{
  Bool, true, false, Option, none, some, List, [], ◌∷◌, ◌++◌, Bytes, codes, Run, ok, ◌>>=◌,
}
use protobuf_sandbox.Json.Node.{CJson}
use protobuf_sandbox.Json.Library.{CJsonLib}
use protobuf_sandbox.Json.Getters.{get_attribute_value_bool}
use protobuf_sandbox.Json.Files.{File, FileRead, refused, threw, parsed, read_json_from_file}
use protobuf_sandbox.Socket.{Opening}
use protobuf_sandbox.Command.Messages.{Command, Protobuf}
use protobuf_sandbox.Command.{Processor, new_processor, init, start, do_work, shutdown}

-- `while (!CtrlC && cmd->IsRunning())`, for the rounds before CtrlC is pressed. Each round has the
-- commands that the transport's thread has queued since the one before. The rounds of the worker are
-- not among the steps here: Command/Threads has them.
pub record Round : Type 0 where
  pub queued : List Command
  pub sends : Bool

unfoldable pub serve : Protobuf → List Round → Processor → Run Processor
serve pb [] p = ok p
serve pb (i ∷ later) p = elim p.running [
  | false ↦ ok p
  | true ↦ do
    r ← do_work pb (record p { cmd_fifo = p.cmd_fifo ++ i.queued }) i.sends
    serve pb later r.processor
]

-- How the program ends: by `return` or `exit` with a status, with the processor where it was shut down,
-- or by an exception.
pub data Exit : Type 0 where
  status_one : Exit
  status_zero : Processor → Exit
  uncaught : Exit

-- What the system answers: the file that the first argument names and the memory behind its text, the
-- opening of the socket, whether the threads are created, and the rounds of the main loop.
pub record World : Type 0 where
  pub argument : Option File
  pub beyond : Bytes
  pub opening : Opening
  pub comm_spawns : Bool
  pub spawns : Bool
  pub rounds : List Round

-- The part behind `init`. The value of `Start` is not looked at.
unfoldable pub run_processor : Protobuf → World → Processor × Bool → Run Exit
unfolding serve
run_processor pb w (p, false) = ok Exit.status_one
run_processor pb w (p, true) = do
  started ← start p w.comm_spawns w.spawns
  q ← serve pb w.rounds started.0
  stopped ← shutdown q
  ok (Exit.status_zero stopped.0)

-- The part behind the reading of the file. An attribute `debug` is only for the log.
unfoldable pub run_config : CJsonLib → Protobuf → World → FileRead → Run Exit
unfolding run_processor
run_config lib pb w refused = ok Exit.status_one
run_config lib pb w threw = ok Exit.uncaught
run_config lib pb w (parsed config false) = ok Exit.status_one
run_config lib pb w (parsed config true) = do
  debug ← get_attribute_value_bool config (codes "debug")
  r ← init lib (lib.get_object_item config (codes "CommandProcessor")) w.opening new_processor
  run_processor pb w r

-- `main`, with at most one argument that counts; `parse` is `cJSON_Parse`.
unfoldable pub server_main : CJsonLib → Protobuf → (Bytes → CJson) → World → Run Exit
unfolding run_config
server_main lib pb parse w = elim w.argument [
  | none ↦ ok Exit.status_one
  | some file ↦ run_config lib pb w (read_json_from_file parse file w.beyond)
]
