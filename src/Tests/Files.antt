-- ===== src/Tests/Files.antt =====
-- A concrete file, hash and thread.
use protobuf_sandbox.Prelude.{
  ◌≡◌, refl, true, false, List, [], ◌∷◌, ◌++◌, map, codes, ok, fault, ◌>>=◌,
}
use protobuf_sandbox.Prelude.Int.{ℤ, pos, negsuc}
use protobuf_sandbox.Json.Node.{Double}
use protobuf_sandbox.Json.Convert.{map_to_json_int_double, json_to_map_int_double}
use protobuf_sandbox.Json.Convert.RoundTrip.{json_to_map_int-map_to_json_int}
use protobuf_sandbox.Json.Hash.{create_string_hash}
use protobuf_sandbox.Transport.{new_transport}
use protobuf_sandbox.Transport.Receive.{run_rx, block_input}
use protobuf_sandbox.Transport.Thread.{round, set_done, thread_func, ended, thread_func-run_rx}
use protobuf_sandbox.Tests.Library.{lib}
use protobuf_sandbox.Tests.Stream.{transport, input, blocks}

-- Keys at both ends of the range.
abbrev numbered : List (ℤ × Double)
numbered = (negsuc 2147483647, 1) ∷ (pos 0, 2) ∷ (pos 2147483647, 3) ∷ []

abbrev old_numbered : List (ℤ × Double)
old_numbered = (pos 7, 4) ∷ []

json_to_map_int-map_to_json_int_example :
    json_to_map_int_double (map_to_json_int_double lib numbered).0 old_numbered
    ≡ ok (old_numbered ++ numbered, true)
json_to_map_int-map_to_json_int_example =
    json_to_map_int-map_to_json_int lib numbered old_numbered (refl, (refl, (refl, tt)))
      (refl, (refl, (refl, tt)))

-- A text of seven letters is too long.
long_text : create_string_hash (codes "zebraaa") ≡ fault
unfolding create_string_hash
long_text = refl

not_done : transport.rx_done ≡ false
unfolding new_transport
not_done = refl

-- Two blocks, and a third behind the end of the thread.
thread_func-run_rx_example :
    thread_func transport (
      map round (map (block_input input) blocks)
      ++ set_done ∷ round (block_input input (120, 10 ∷ [])) ∷ [])
    ≡ (run_rx transport (map (block_input input) blocks) >>= ended)
thread_func-run_rx_example =
    thread_func-run_rx (map (block_input input) blocks)
      (round (block_input input (120, 10 ∷ [])) ∷ []) transport not_done
