-- ===== src/Socket/Addresses.antt =====
-- server/socket/socketUnix.cpp, socketIPv4.cpp and socketIPv6.cpp with their headers: the classes that
-- give socketBase its addresses. What the kernel answers is an argument.
pub mod Agreement
use epoll_model.Prelude.{
  ℕ, zero, suc, ◌+◌, ◌*◌, ◌^◌, ◌/◌, ◌%◌, ◌≤◌, ◌<◌, ◌≡◌, refl, ap, ◌∙◌, true, List, [], ◌∷◌, ◌++◌,
  append_assoc, length, length-append, drop, if◌then◌else◌, ℤ, minus_one, is_positive, Outcome, ok,
  fault, ◌>>=◌, arith,
}
use epoll_model.Memory.{write_at, filled}
use epoll_model.Memory.Copies.{write_at-next, write_at-fault, length-filled}
use epoll_model.Socket.{Socket}

-- What `c_str` and `strlen` see of a string: the bytes before the first NUL.
unfoldable pub c_string : List ℕ → List ℕ
c_string [] = []
c_string (zero ∷ bs) = []
c_string (suc b ∷ bs) = suc b ∷ c_string bs

abbrev pub af_unix : ℕ
af_unix = 1

abbrev pub af_inet : ℕ
af_inet = 2

abbrev pub af_inet6 : ℕ
af_inet6 = 10

-- `sizeof(sun_path)` and its offset.
abbrev pub sun_path_len : ℕ
sun_path_len = 108

abbrev pub sun_path_offset : ℕ
sun_path_offset = 2

-- What a call is given: the whole array `sun_path` with the size passed, or the fields of the
-- `sockaddr_in`, the port in the order of the network.
pub data Address : Type 0 where
  local_address : (sun_path : List ℕ) (size : ℕ) → Address
  internet_address : (family : ℕ) (port : List ℕ) (host : ℕ) → Address

pub data AddressCall : Type 0 where
  makes : (family : ℕ) → AddressCall
  unlinks : (path : List ℕ) → AddressCall
  binds : (socket : ℤ) → Address → AddressCall
  connects : (socket : ℤ) → Address → AddressCall

-- `socket` of each class, by its family.
unfoldable pub make_socket : ℕ → (made : ℤ) → Socket → Socket × ℤ × List AddressCall
make_socket family made s = (record s { socket = made }, made, makes family ∷ [])

-- `memset` of the structure, then `strcpy` into its array, which is its last field.
pub local_path : List ℕ → Outcome (List ℕ)
local_path addr = write_at (filled sun_path_len 0) 0 (c_string addr ++ 0 ∷ [])

-- socketUnix::bind(std::string)
unfoldable pub unix_bind : (bound : ℤ) → Socket → List ℕ → Outcome (ℤ × List AddressCall)
unfolding local_path
unix_bind bound s addr =
    if is_positive s.socket
    then (do
      path ← local_path addr
      let size = sun_path_offset + length (c_string path)
      ok (bound, unlinks (c_string path) ∷ binds s.socket (local_address path size) ∷ []))
    else ok (minus_one, [])

-- socketUnix::connect. The port is not used.
unfoldable pub unix_connect : (connected socket : ℤ) → List ℕ → ℕ → Outcome (ℤ × List AddressCall)
unfolding local_path
unix_connect connected socket addr port =
    if is_positive socket
    then (do
      path ← local_path addr
      let size = sun_path_offset + length (c_string path)
      ok (connected, connects socket (local_address path size) ∷ []))
    else ok (minus_one, [])

-- `htons` of a number cut to 16 bits.
abbrev pub htons : ℕ → List ℕ
htons port = (port / 256 % 256) ∷ (port % 256) ∷ []

-- `bind(unsigned short)` of socketIPv4 and socketIPv6, by the family. Both fill a `sockaddr_in`; the
-- host is INADDR_ANY.
unfoldable pub ip_bind : ℕ → (bound : ℤ) → Socket → (port : ℕ) → ℤ × List AddressCall
ip_bind family bound s port =
    if is_positive s.socket
    then (bound, binds s.socket (internet_address family (htons port) 0) ∷ [])
    else (minus_one, [])

-- `connect` of the two; `inet_addr` of the string is an argument.
unfoldable pub ip_connect :
    ℕ
    → (connected : ℤ) → (inet_addr : List ℕ → ℕ) → (socket : ℤ) → List ℕ
    → (port : ℕ) → ℤ × List AddressCall
ip_connect family connected inet_addr socket addr port =
    if is_positive socket
    then (
      connected,
      connects socket (internet_address family (htons port) (inet_addr (c_string addr))) ∷ [],
    )
    else (minus_one, [])

-- The operations of socketUnix, socketIPv4 and socketIPv6 that are these with their family.
abbrev pub unix_socket : (made : ℤ) → Socket → Socket × ℤ × List AddressCall
unix_socket made s = make_socket af_unix made s

abbrev pub ipv4_socket : (made : ℤ) → Socket → Socket × ℤ × List AddressCall
ipv4_socket made s = make_socket af_inet made s

abbrev pub ipv6_socket : (made : ℤ) → Socket → Socket × ℤ × List AddressCall
ipv6_socket made s = make_socket af_inet6 made s

abbrev pub ipv4_bind : (bound : ℤ) → Socket → (port : ℕ) → ℤ × List AddressCall
ipv4_bind bound s port = ip_bind af_inet bound s port

abbrev pub ipv6_bind : (bound : ℤ) → Socket → (port : ℕ) → ℤ × List AddressCall
ipv6_bind bound s port = ip_bind af_inet6 bound s port

abbrev pub ipv4_connect :
    ℤ → (List ℕ → ℕ) → (socket : ℤ) → List ℕ → (port : ℕ) → ℤ × List AddressCall
ipv4_connect connected inet_addr socket addr port =
    ip_connect af_inet connected inet_addr socket addr port

abbrev pub ipv6_connect :
    ℤ → (List ℕ → ℕ) → (socket : ℤ) → List ℕ → (port : ℕ) → ℤ × List AddressCall
ipv6_connect connected inet_addr socket addr port =
    ip_connect af_inet6 connected inet_addr socket addr port

-- The overloads of `bind` that a class does not support.
abbrev pub bind_refused : ℤ
bind_refused = minus_one

-- The virtual operations of socketBase, as each class overrides them.
pub record AddressClass : Type 0 where
  pub make : ℤ → Socket → Socket × ℤ × List AddressCall
  pub bind_path : ℤ → Socket → List ℕ → Outcome (ℤ × List AddressCall)
  pub bind_port : ℤ → Socket → ℕ → Outcome (ℤ × List AddressCall)
  pub connect : ℤ → (socket : ℤ) → List ℕ → ℕ → Outcome (ℤ × List AddressCall)

abbrev pub socket_unix : AddressClass
socket_unix = record {
  make = unix_socket;
  bind_path = unix_bind;
  bind_port = λ bound s port. ok (bind_refused, []);
  connect = unix_connect;
}

abbrev pub socket_ipv4 : (List ℕ → ℕ) → AddressClass
socket_ipv4 inet_addr = record {
  make = ipv4_socket;
  bind_path = λ bound s addr. ok (bind_refused, []);
  bind_port = λ bound s port. ok (ipv4_bind bound s port);
  connect = λ connected socket addr port. ok (ipv4_connect connected inet_addr socket addr port);
}

abbrev pub socket_ipv6 : (List ℕ → ℕ) → AddressClass
socket_ipv6 inet_addr = record {
  make = ipv6_socket;
  bind_path = λ bound s addr. ok (bind_refused, []);
  bind_port = λ bound s port. ok (ipv6_bind bound s port);
  connect = λ connected socket addr port. ok (ipv6_connect connected inet_addr socket addr port);
}
