-- ===== src/Net.antt =====
-- net.c: the clients of the UDP server, which is built with USE_NET. The socket calls of net_sock.h
-- are arguments: whether a call succeeds, and what is received from whom.
pub mod Peer
pub mod Clients
mod Tests
use gcfflashero.Base.{
  ℕ, zero, suc, ◌+◌, Bool, true, false, ◌&&◌, Option, none, some, List, [], ◌∷◌, ◌++◌, ltb, leb,
  ◌==◌, if◌then◌else◌, length, get_or, is_empty, take,
}

-- S_Addr
pub record Addr : Type 0 where
  pub octets : List ℕ
  pub af : ℕ

-- NET_Client, and the peer of a packet in S_Udp
pub record Client : Type 0 where
  pub addr : Addr
  pub port : ℕ

-- NET_State: the first `n_clients` entries of `clients`.
pub record Net : Type 0 where
  pub clients : List Client

abbrev pub max_net_clients : ℕ
max_net_clients = 4

-- The loop over the bytes of two addresses from `j` on, and whether it ends with `j == addr_len`.
unfoldable pub same_octets : ℕ → ℕ → List ℕ → List ℕ → Bool
same_octets zero j a b = true
same_octets (suc left) j a b =
    let rest = same_octets left (j + 1) a b in if get_or a j 0 == get_or b j 0 then rest else false

abbrev pub addr_len : ℕ → ℕ
addr_len af = if af == 4 then 4 else 16

abbrev pub is_client : Client → Client → Bool
is_client peer client =
    peer.port == client.port
    && peer.addr.af == client.addr.af
    && same_octets (addr_len client.addr.af) 0 peer.addr.octets client.addr.octets

-- The loop over the clients.
unfoldable pub find_client : Client → List Client → ℕ → Option ℕ
find_client peer [] i = none
find_client peer (client ∷ rest) i =
    let later = find_client peer rest (i + 1) in if is_client peer client then some i else later

-- What stands behind the loop.
abbrev pub new_client : Client → Net → Option ℕ → Net × Option ℕ
new_client peer net (some i) = (net, some i)
new_client peer net none =
    if ltb (length net.clients) max_net_clients
    then (record { clients = net.clients ++ peer ∷ [] }, some (length net.clients))
    else (net, none)

-- netCheckNewClient; `none` is -1.
abbrev pub check_new_client : Client → Net → Net × Option ℕ
check_new_client peer net = new_client peer net (find_client peer net.clients 0)

-- A packet: from whom, and its bytes.
abbrev pub Packet : Type 0
Packet = Client × List ℕ

-- NET_Step, with what SOCK_UdpRecv() gets, and the call of NET_Received.
unfoldable pub net_step : Option Packet → Net → Net × Option (Option ℕ × List ℕ)
net_step none net = (net, none)
net_step (some (peer, bytes)) net =
    let (net', id) = check_new_client peer net in
    if is_empty bytes then (net, none) else (net', some (id, take 1280 bytes))

-- NET_Init, and NET_Exit
pub net_init : Bool → Bool → Net × Bool
net_init opens binds = (record { clients = [] }, if opens then binds else false)

pub net_exit : Net → Net
net_exit net = record { clients = [] }
