-- ===== src/Tests/Link.antt =====
-- The socket and the transport on concrete streams.
use protobuf_sandbox.Prelude.{
  ℕ, ◌≡◌, refl, true, false, none, some, List, [], ◌∷◌, ◌++◌, map, arith, inl, Bytes, codes, c_str,
  ok, All,
}
use protobuf_sandbox.Prelude.Int.{pos}
use protobuf_sandbox.Socket.Types.{Mode, State}
use protobuf_sandbox.Socket.{LinuxSocket, Connecting, Opening, Received}
use protobuf_sandbox.Socket.ReadLine.{
  ReadAnswer, byte, would_block, LineRead, Reading, waiting, read_line,
}
use protobuf_sandbox.Socket.ReadLine.Bounds.{Sound, read_line-Sound, Inner}
use protobuf_sandbox.Socket.ReadLine.Lines.{line, read_line-line}
use protobuf_sandbox.Transport.{Transport, RxInput, new_transport, deliver, drain}
use protobuf_sandbox.Transport.Framing.{cut, joined, NoNewline, drain-joined}
use protobuf_sandbox.Transport.Receive.{
  IsReceiving, run_rx, run_rx-blocks, block_input, texts, advanced,
}
use protobuf_sandbox.Transport.Reconnect.{change_client, change_client-blocks}

abbrev no_answer : Connecting
no_answer = record { fd = none; option_set = false; connects = false }

abbrev opened : Opening
opened = record { fd = some 3; binds = true; listens = true; connecting = no_answer }

-- A server on port 8080 that serves the descriptor 5.
abbrev server : LinuxSocket
server = record {
  mode = Mode.server;
  state = State.connected;
  ip_address = codes "127.0.0.1";
  port = pos 8080;
  server_sock = some 3;
  client_sock = some 5;
  has_callback = false;
}

abbrev waiting_server : LinuxSocket
waiting_server = record server { state = State.server_port_setup; client_sock = none }

abbrev answers : List ReadAnswer
answers = byte 97 ∷ would_block ∷ byte 98 ∷ byte 10 ∷ byte 99 ∷ []

read_line-Sound_example : Sound 16 (read_line 16 1000 true State.connected answers)
read_line-Sound_example = read_line-Sound 16 1000 true State.connected answers (omega arith)

abbrev two_idle : List ReadAnswer
two_idle = would_block ∷ would_block ∷ []

abbrev after_two : Reading
after_two = record { text = []; first_char = false; left = 500; state = State.connected }

after_two_idle : read_line 16 1000 true State.connected two_idle ≡ waiting after_two
unfolding read_line
after_two_idle = refl

ab-Inner : Inner 97
ab-Inner = (omega arith, omega arith)

b-Inner : Inner 98
b-Inner = (omega arith, omega arith)

read_line-line_example :
    read_line 16 1000 true State.connected (map byte (codes "ab") ++ byte 10 ∷ byte 99 ∷ [])
    ≡ line 16 1000 true State.connected (codes "ab")
read_line-line_example =
    read_line-line 16 1000 true State.connected (codes "ab") 10 (byte 99 ∷ []) (omega arith)
      (ab-Inner, (b-Inner, tt)) (inl refl) (omega arith)

drain-joined_example :
    (joined (drain 4 (97 ∷ 10 ∷ 98 ∷ 99 ∷ [])).0 (drain 4 (97 ∷ 10 ∷ 98 ∷ 99 ∷ [])).1
      ≡ 97 ∷ 10 ∷ 98 ∷ 99 ∷ [])
    × All NoNewline (drain 4 (97 ∷ 10 ∷ 98 ∷ 99 ∷ [])).0
    × NoNewline (drain 4 (97 ∷ 10 ∷ 98 ∷ 99 ∷ [])).1
drain-joined_example = drain-joined 4 (97 ∷ 10 ∷ 98 ∷ 99 ∷ []) (omega arith)

-- A transport that has read `q` of a command.
abbrev transport : Transport
transport = record new_transport {
  socket = some server;
  cmd_buffer = 113 ∷ [];
  has_callback = true;
}

abbrev no_line : LineRead
no_line = record { text = []; num_read = pos 0; state = State.connected; ret = true }

abbrev quiet_input : RxInput
quiet_input = record {
  connecting = no_answer;
  accepted = none;
  received = Received.would_block;
  line = no_line;
}

abbrev blocks : List (ℕ × Bytes)
blocks = (117, 10 ∷ 115 ∷ []) ∷ (116, 10 ∷ 0 ∷ 120 ∷ []) ∷ []

transport-IsReceiving : IsReceiving transport server 5
unfolding new_transport
transport-IsReceiving = record {
  uses = refl;
  connected = refl;
  reads_from = refl;
  blocks = refl;
  calls_back = refl;
}

q-NoNewline : NoNewline (113 ∷ [])
q-NoNewline = (omega arith, tt)

run_rx-blocks_example :
    run_rx transport (map (block_input quiet_input) blocks)
    ≡ ok (
      advanced transport server (cut [] (transport.cmd_buffer ++ texts blocks)),
      deliver transport.invoke_cnt (cut [] (transport.cmd_buffer ++ texts blocks)).0,
    )
run_rx-blocks_example =
    run_rx-blocks blocks transport server 5 quiet_input transport-IsReceiving q-NoNewline

change_client-blocks_example :
    run_rx transport (change_client quiet_input 6 ++ map (block_input quiet_input) blocks)
    ≡ ok (
      advanced transport
          (record server { client_sock = some 6 })
          (cut [] (transport.cmd_buffer ++ texts blocks)),
      deliver transport.invoke_cnt (cut [] (transport.cmd_buffer ++ texts blocks)).0,
    )
change_client-blocks_example =
    change_client-blocks blocks transport server 5 6 3 8079 quiet_input transport-IsReceiving refl
      refl refl q-NoNewline

-- The two blocks hold the commands `qu` and `st`; the bytes behind a NUL are dropped.
blocks_delivered :
    deliver 0 (cut [] (113 ∷ texts blocks)).0 ≡ (1, codes "qu") ∷ (2, codes "st") ∷ []
unfolding deliver cut c_str
blocks_delivered = refl
