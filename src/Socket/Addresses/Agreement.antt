-- ===== src/Socket/Addresses/Agreement.antt =====
-- The addresses that servers bind and clients connect to, and where the path is too long.
use epoll_model.Prelude.{
  ℕ, zero, suc, ◌+◌, ◌*◌, ◌^◌, ◌/◌, ◌%◌, ◌≤◌, ◌<◌, ◌≡◌, refl, ap, ◌∙◌, true, List, [], ◌∷◌, ◌++◌,
  append_assoc, length, length-append, drop, ℤ, is_positive, ok, fault, arith,
}
use epoll_model.Memory.{write_at, filled}
use epoll_model.Memory.Copies.{write_at-next, write_at-fault, length-filled}
use epoll_model.Socket.{Socket}
use epoll_model.Socket.Addresses.{
  c_string, af_inet, sun_path_len, sun_path_offset, local_path, unix_bind, unix_connect, ip_bind,
  ip_connect, ipv4_bind, ipv4_connect, local_address, internet_address, unlinks, binds, connects,
}

c_string-terminated : (bs rest : List ℕ) → c_string (c_string bs ++ 0 ∷ rest) ≡ c_string bs
unfolding c_string
c_string-terminated [] rest = refl
c_string-terminated (zero ∷ bs) rest = refl
c_string-terminated (suc b ∷ bs) rest = ap (◌∷◌ (suc b)) (c_string-terminated bs rest)

-- With an open socket, a server and a client that name the same path use the same address: the path
-- up to its first NUL, which is what the server unlinks first, provided it leaves room for a NUL in
-- the 108 bytes of the array.
pub unix_bind-connect :
    (s : Socket) (socket bound connected : ℤ) (addr : List ℕ) (port : ℕ)
    → is_positive s.socket ≡ true
    → is_positive socket ≡ true
    → length (c_string addr) < sun_path_len
    → (path : List ℕ) × (c_string path ≡ c_string addr)
      × (unix_bind bound s addr
          ≡ ok (
            bound,
            unlinks (c_string addr)
                ∷ binds s.socket (local_address path (sun_path_offset + length (c_string addr)))
                ∷ [],
          ))
      × (unix_connect connected socket addr port
          ≡ ok (
            connected,
            connects socket (local_address path (sun_path_offset + length (c_string addr))) ∷ [],
          ))
unfolding unix_bind unix_connect local_path
unix_bind-connect s socket bound connected addr port opened opened' room =
    let name = c_string addr in
    let n = length-filled sun_path_len 0 in
    let text = name ++ 0 ∷ [] in
    let path = text ++ drop (length text) (filled sun_path_len 0) in
    let copied : write_at (filled sun_path_len 0) 0 text ≡ ok path =
      write_at-next [] (filled sun_path_len 0) text 0 refl
        (omega (arith, length-append name (0 ∷ []))) in
    let ends : c_string path ≡ name =
      ap c_string (append_assoc name (0 ∷ []) (drop (length text) (filled sun_path_len 0)))
      ∙ c_string-terminated addr (drop (length text) (filled sun_path_len 0)) in
    (path, ends, rw (opened, copied, ends) refl, rw (opened', copied, ends) refl)

-- A longer path is copied beyond the array.
pub unix_bind_overflow :
    (s : Socket) (bound : ℤ) (addr : List ℕ)
    → is_positive s.socket ≡ true
    → sun_path_len ≤ length (c_string addr)
    → unix_bind bound s addr ≡ fault
unfolding unix_bind local_path
unix_bind_overflow s bound addr opened long =
    rw
      (
        opened,
        write_at-fault (filled sun_path_len 0) (c_string addr ++ 0 ∷ []) 0
            (omega (arith, length-filled sun_path_len 0, length-append (c_string addr) (0 ∷ []))),
      )
      refl

-- For an open socket, the two bytes that socketIPv4::connect passes for a port are the port modulo
-- 2^16 in the order of the network, and they are those that bind of that remainder passes.
pub ipv4_connect-bind :
    (s : Socket) (bound connected socket : ℤ) (inet_addr : List ℕ → ℕ) (addr : List ℕ) (port : ℕ)
    → is_positive s.socket ≡ true
    → is_positive socket ≡ true
    → (high low : ℕ) × (256 * high + low ≡ port % 2 ^ 16)
      × (low < 256)
      × (ipv4_connect connected inet_addr socket addr port ≡ (
        connected,
        connects socket (internet_address af_inet (high ∷ low ∷ []) (inet_addr (c_string addr)))
            ∷ [],
      ))
      × (ipv4_bind bound s (port % 2 ^ 16)
          ≡ (bound, binds s.socket (internet_address af_inet (high ∷ low ∷ []) 0) ∷ []))
unfolding ip_connect ip_bind
ipv4_connect-bind s bound connected socket inet_addr addr port opened opened' =
    let high : port % 2 ^ 16 / 256 % 256 ≡ port / 256 % 256 = omega arith in
    let low : port % 2 ^ 16 % 256 ≡ port % 256 = omega arith in
    (
      port / 256 % 256,
      port % 256,
      omega arith,
      omega arith,
      rw opened' refl,
      rw (opened, high, low) refl,
    )
