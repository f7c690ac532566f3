-- ===== src/Network/Examples.antt =====
-- Requests in a network of one server.
use sharded_raft_key_value_s.Prelude.{ℕ, ◌≡◌, ◌≤◌, refl, true, false, some, [], ◌∷◌, nat_eq}
use sharded_raft_key_value_s.Prelude.Dict.{get_or, lookup}
use sharded_raft_key_value_s.Network.{
  Address, ReplyMsg, Network, Chances, await, is_server_dead, deliver_reply, dispatch_req,
  read_endname_info, process_req,
}
use sharded_raft_key_value_s.Network.Requests.{Routed, process_req-ok}

-- end 5 is connected to server 8 at address 100
abbrev pub network : Network ℕ ℕ
network = record {
  reliable = true;
  long_delays = false;
  long_reordering = true;
  ends = (5, 5) ∷ [];
  enabled = (5, true) ∷ [];
  servers = (8, some 100) ∷ [];
  connections = (5, some 8) ∷ [];
  count = 0;
  bytes = 0;
}

abbrev pub chances : Chances
chances = record { drop_request = 7; drop_reply = 450; reorder = 20; waits = 3 }

abbrev a_reply : ReplyMsg
a_reply = record { ok = true; reply = 1 ∷ 2 ∷ [] }

pub network-Routed : Routed 5 network 8 100
unfolding get_or lookup
network-Routed = (refl, refl, refl)

pub network-alive : is_server_dead 5 (some 8) (some 100) network ≡ false
unfolding get_or lookup is_server_dead
network-alive = refl

answered : (process_req chances 5 a_reply (λ t. network)).message.ok ≡ true
unfolding process_req get_or lookup is_server_dead await deliver_reply dispatch_req
    read_endname_info
answered = refl

process_req-ok_example :
    (servername : ℕ) × (server : Address) × Routed 5 network servername server
    × ((process_req chances 5 a_reply (λ t. network)).called ≡ true)
    × ((process_req chances 5 a_reply (λ t. network)).message ≡ a_reply)
    × ((process_req chances 5 a_reply (λ t. network)).counted ≡ 2)
    × (u : ℕ) × (1 ≤ u)
    × (is_server_dead 5 (some servername) (some server) network ≡ false)
process_req-ok_example = process_req-ok chances 5 a_reply (λ t. network) answered
