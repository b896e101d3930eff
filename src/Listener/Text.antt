-- ===== src/Listener/Text.antt =====
-- examples/socket/tcp_listener.cc: the address and the port of a peer that the log shows. `inet_ntop` is
-- given by what it writes for the family and the bytes of an address.
use ucxpp.Base.{ℕ, ◌+◌, ◌*◌, ◌/◌, ◌%◌, ◌<◌, ◌≡◌, refl, List, String, Bool, true, false, arith}
use ucxpp.Serdes.Bytes.{little, big, htobe}

-- `sockaddr_in` and `sockaddr_in6`, by the family: the port as it stands in memory, and the bytes of the
-- address.
pub data SockAddr : Type 0 where
  sockaddr_in sockaddr_in6 : (port : ℕ) → (addr : List ℕ) → SockAddr

abbrev pub is_inet : SockAddr → Bool
is_inet (sockaddr_in port addr) = true
is_inet (sockaddr_in6 port addr) = false

unfoldable pub get_in_addr : SockAddr → List ℕ
get_in_addr (sockaddr_in port addr) = addr
get_in_addr (sockaddr_in6 port addr) = addr

unfoldable pub get_in_port : SockAddr → ℕ
get_in_port (sockaddr_in port addr) = port
get_in_port (sockaddr_in6 port addr) = port

unfoldable pub get_in_addr_string : (inet_ntop : Bool → List ℕ → String) → SockAddr → String
unfolding get_in_addr
get_in_addr_string inet_ntop sa = inet_ntop (is_inet sa) (get_in_addr sa)

-- On a host whose order of bytes is that of the network the port is shown as it is; on other ones its two
-- bytes are shown the other way round.
pub get_in_port-big :
    (port : ℕ) (addr : List ℕ) → get_in_port (sockaddr_in (htobe big 2 port) addr) ≡ port
unfolding get_in_port
get_in_port-big port addr = refl

pub get_in_port-little :
    (port : ℕ) (addr : List ℕ)
    → port < 65536
    → get_in_port (sockaddr_in (htobe little 2 port) addr) ≡ 256 * (port % 256) + port / 256
unfolding get_in_port
get_in_port-little port addr h = omega arith
