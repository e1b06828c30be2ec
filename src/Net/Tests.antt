-- ===== src/Net/Tests.antt =====
-- Runs of net.c, and the theorems about it at concrete inputs.
use gcfflashero.Base.{ℕ, ◌≡◌, ◌↔◌, refl, arith, some, none, [], ◌∷◌}
use gcfflashero.Net.{Client, Net, net_step, same_octets, find_client, check_new_client}
use gcfflashero.Net.Clients.{
  IsTable, Assigned, check_all, check_new_client-Assigned, check_new_client_same_id,
}
use gcfflashero.Net.Peer.{SamePeer}

-- An IPv4 peer.
abbrev peer : ℕ → ℕ → Client
peer host port = record { addr = record { octets = 127 ∷ 0 ∷ 0 ∷ host ∷ []; af = 4 }; port = port }

abbrev fresh : Net
fresh = record { clients = [] }

fresh-IsTable : IsTable fresh
fresh-IsTable = record { size = omega arith; distinct = tt }

-- Four peers fill the table; the fifth gets -1, and the packet is handed over all the same.
net_step_full :
    net_step
      (some (peer 5 9, 104 ∷ []))
      (check_all (peer 1 9 ∷ peer 2 9 ∷ peer 3 9 ∷ peer 1 9 ∷ peer 1 8 ∷ []) fresh)
    ≡ (record { clients = peer 1 9 ∷ peer 2 9 ∷ peer 3 9 ∷ peer 1 8 ∷ [] }, some (none, 104 ∷ []))
unfolding net_step find_client same_octets
net_step_full = refl

check_new_client-Assigned_example : Assigned (peer 1 9) fresh (check_new_client (peer 1 9) fresh)
check_new_client-Assigned_example = check_new_client-Assigned (peer 1 9) fresh fresh-IsTable

first_id : (check_new_client (peer 1 9) fresh).1 ≡ some 0
unfolding find_client
first_id = refl

third_id :
    (check_new_client
      (peer 1 8)
      (check_all (peer 2 9 ∷ []) (check_new_client (peer 1 9) fresh).0)).1
    ≡ some 2
unfolding find_client same_octets
third_id = refl

check_new_client_same_id_example : (◌≡◌ {A = ℕ} 0 2) ↔ SamePeer (peer 1 9) (peer 1 8)
check_new_client_same_id_example =
    check_new_client_same_id fresh (peer 1 9) (peer 1 8) (peer 2 9 ∷ []) 0 2 fresh-IsTable first_id
      third_id
