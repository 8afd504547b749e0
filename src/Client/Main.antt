-- ===== src/Client/Main.antt =====
-- The stages of `main` of src/client.cpp, and their composition.
use protobuf_sandbox.Prelude.{
  ℕ, zero, suc, ◌+◌, Bool, true, false, ◌||◌, Option, none, some, List, [], ◌∷◌, ◌++◌, ◌==◌, leb,
  length, if◌then◌else◌, Bytes, codes, c_str, Run, ok, fault, ◌>>=◌,
}
use protobuf_sandbox.Prelude.Int.{ℤ, pos, negsuc}
use protobuf_sandbox.Json.Node.{CJson, null, node, cjson_true, is_kind}
use protobuf_sandbox.Json.Library.{CJsonLib}
use protobuf_sandbox.Json.Getters.{get_attribute_default_int}
use protobuf_sandbox.Socket.Types.{Mode}
use protobuf_sandbox.Socket.{LinuxSocket, Opening, new_socket}
use protobuf_sandbox.Socket
use protobuf_sandbox.Command.Messages.{Command}
use protobuf_sandbox.Client.{
  read_line_from_socket, send_command, Client, Exchange, Stage, then_go, exchange, index_plus,
  go_on, returned_false, more,
}

-- The `for` loop of the status commands, from `i` on, with `i++, cmd_idx += i` behind each round.
unfoldable pub status_loop :
    (Command → Bytes) → ℕ → ℕ → Client → List Exchange → Run (Stage (Client × List Exchange))
unfolding exchange
status_loop write zero i c xs = ok (go_on (c, xs))
status_loop write (suc rounds) i c [] = ok more
status_loop write (suc rounds) i c (x ∷ xs) =
    then_go
      (exchange write (codes "error") (record c { cmd = record c.cmd { id = pos c.cmd_idx } }) x)
      (λ d. index_plus d.cmd_idx (suc i) >>= λ idx.
        status_loop write rounds (suc i) (record d { cmd_idx = idx }) xs)

-- The `start` and the `stop` command: `set_method`, and `set_id(++cmd_idx)`.
unfoldable pub single_command :
    (Command → Bytes) → Bytes → Client → List Exchange → Run (Stage (Client × List Exchange))
unfolding exchange
single_command write method c [] = ok more
single_command write method c (x ∷ xs) = do
  idx ← index_plus c.cmd_idx 1
  then_go
      (exchange write (codes "false")
        (record c { cmd_idx = idx; cmd = record { id = pos idx; method = method } }) x)
      (λ d. ok (go_on (d, xs)))

abbrev pub double_field : CJsonLib → CJson → Bytes → Run ℕ
double_field lib o key = elim (lib.get_object_item o key) [
  | null ↦ fault
  | node it c n ↦ ok it.valuedouble
]

-- The three numbers of a result, which the loop writes to its log.
abbrev pub read_numbers : CJsonLib → CJson → Run Bool
read_numbers lib result = do
  radius ← double_field lib result (codes "contact_radius")
  x ← double_field lib result (codes "center_pt_x")
  y ← double_field lib result (codes "center_pt_y")
  ok true

-- What the loop takes from a response, down to whether it was a success. An item that is missing is
-- NULL, and is used.
unfoldable pub read_result : CJsonLib → CJson → Run Bool
read_result lib resp = do
  id ← get_attribute_default_int resp (codes "id") (negsuc 0)
  elim (lib.get_object_item resp (codes "result")) [
    | null ↦ fault
    | node it c n ↦ elim (lib.get_object_item (node it c n) (codes "success")) [
      | null ↦ fault
      | node ok_it oc on ↦
          if is_kind cjson_true ok_it then read_numbers lib (node it c n) else ok false
    ]
  ]

-- `unsuccess_cnt` behind a line; `parse` is `cJSON_Parse`, which gives NULL for no JSON.
unfoldable pub count_line : CJsonLib → (Bytes → CJson) → Bytes → ℕ → Run ℕ
unfolding read_result
count_line lib parse line count = if length line == 0 then ok count else elim (parse (c_str line)) [
  | null ↦ ok count
  | node it c n ↦ do success ← read_result lib (node it c n); ok (if success then 0 else count + 1)
]

-- The response to a query, which is counted.
abbrev pub note_result :
    CJsonLib
    → (Bytes → CJson)
    → Client
    → ℕ
    → Option (LinuxSocket × Bytes)
    → Run (Stage (Client × ℕ))
note_result lib parse c count none = ok more
note_result lib parse c count (some (s, line)) = do
  k ← count_line lib parse line count
  ok (go_on (record c { socket = s }, k))

-- The query with the identifier `idx`.
unfoldable pub ask :
    CJsonLib
    → (Bytes → CJson)
    → (Command → Bytes)
    → Client
    → ℕ
    → Exchange
    → ℕ
    → Run (Stage (Client × ℕ))
unfolding send_command read_line_from_socket count_line
ask lib parse write c count x idx =
    let cmd : Command = record { id = pos idx; method = codes "query" } in
    let (out, good) = send_command write c.socket cmd x.sends in
    let asked = record c { cmd = cmd; cmd_idx = idx; sent = c.sent ++ out ∷ [] } in
    if good
    then note_result lib parse asked count (read_line_from_socket c.socket x.answers)
    else ok (go_on (asked, count))

-- One round of the loop of queries.
unfoldable pub query_round :
    CJsonLib
    → (Bytes → CJson)
    → (Command → Bytes)
    → Client
    → ℕ
    → Exchange
    → Run (Stage (Client × ℕ))
unfolding ask
query_round lib parse write c count x = index_plus c.cmd_idx 1 >>= ask lib parse write c count x

-- `while (!CtrlC && (unsuccess_cnt < 5000))`.
unfoldable pub query_loop :
    CJsonLib
    → (Bytes → CJson)
    → (Command → Bytes)
    → Client
    → ℕ
    → List Exchange
    → Run (Stage (Client × List Exchange))
unfolding query_round
query_loop lib parse write c count [] = if leb 5000 count then ok (go_on (c, [])) else ok more
query_loop lib parse write c count (x ∷ xs) =
    let rest =
      then_go (query_round lib parse write c count x)
        (λ r. query_loop lib parse write r.0 r.1 xs) in
    if x.ctrl_c || leb 5000 count then ok (go_on (c, x ∷ xs)) else rest

-- `main` behind the connecting. `newCmd` is a pointer, and where it is NULL it is used at once. That is
-- what `client_main` hands on: the rest is what the code says of a command, and no run comes to it.
unfoldable pub run_client :
    CJsonLib
    → (Bytes → CJson)
    → (Command → Bytes)
    → Option Command
    → LinuxSocket
    → List Exchange
    → Run (Stage (Client × List Exchange))
unfolding status_loop single_command query_loop
run_client lib parse write none s xs = fault
run_client lib parse write (some cmd) s xs =
    then_go
      (status_loop write 10 0
        (record {
          socket = s;
          cmd = record cmd { method = codes "status" };
          cmd_idx = 1;
          sent = [];
        })
        xs)
      (λ a. then_go (single_command write (codes "start") a.0 a.1) (λ b.
        then_go (query_loop lib parse write b.0 0 b.1)
          (λ d. single_command write (codes "stop") d.0 d.1)))

abbrev pub is_zero : ℤ → Bool
is_zero (pos n) = n == 0
is_zero (negsuc n) = false

-- `main`, with the address, the port and the frequency taken from the command line or the defaults. The
-- pause is 1000 divided by the frequency. `std::shared_ptr<sandbox::Command> newCmd` is NULL.
unfoldable pub client_main :
    CJsonLib
    → (Bytes → CJson)
    → (Command → Bytes)
    → Bytes
    → ℤ
    → ℤ
    → Opening
    → List Exchange
    → Run (Stage (Client × List Exchange))
unfolding run_client
client_main lib parse write ip port freq a xs =
    if is_zero freq
    then fault
    else (let (s, good) = Socket.init new_socket Mode.client ip port a in
        if good then run_client lib parse write none s xs else ok returned_false)
