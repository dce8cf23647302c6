-- ===== src/Socket/Windows/Texts.antt =====
-- The texts of WinSock's errors (luarpc_socket.c, `transport_strerror`).
use mathlib.Core.List.{Pairwise, Memᴰ}
use mathlib.Core.List.Pairwise.{cons}
use mathlib.Core.List.Memᴰ.{head, tail}
use luarpc.Base.{
  ℕ, true, false, sym, ap, arith, ◌≡◌, ◌≢◌, ◌==◌, if◌then◌else◌, List, [], ◌∷◌, Bytes, codes,
}

-- The errors that the branch has a text for.
pub data WsaError : Type 0 where
  wsaeacces wsaeaddrinuse wsaeaddrnotavail wsaeafnosupport wsaealready wsaeconnaborted : WsaError
  wsaeconnrefused wsaeconnreset wsaedestaddrreq wsaefault wsaehostdown wsaehostunreach : WsaError
  wsaeinprogress wsaeintr wsaeinval wsaeisconn wsaemfile wsaemsgsize wsaenetdown wsaenetreset :
      WsaError
  wsaenetunreach wsaenobufs wsaenoprotoopt wsaenotconn wsaenotsock wsaeopnotsupp : WsaError
  wsaepfnosupport wsaeproclim wsaeprotonosupport wsaeprototype wsaeshutdown wsaesocktnosupport :
      WsaError
  wsaetimedout wsaewouldblock wsahost_not_found wsanotinitialised wsano_data wsano_recovery :
      WsaError
  wsasysnotready wsatry_again wsavernotsupported wsaediscon : WsaError

module _ (code : WsaError → ℕ) where
  -- The cases of the switch, by the numbers that WinSock gives to the errors.
  abbrev wsa_texts : List (ℕ × Bytes)
  wsa_texts =
      (code wsaeacces, codes "Permission denied.")
      ∷ (code wsaeaddrinuse, codes "Address already in use.")
      ∷ (code wsaeaddrnotavail, codes "Cannot assign requested address.")
      ∷ (code wsaeafnosupport, codes "Address family not supported by protocol family.")
      ∷ (code wsaealready, codes "Operation already in progress.")
      ∷ (code wsaeconnaborted, codes "Software caused connection abort.")
      ∷ (code wsaeconnrefused, codes "Connection refused.")
      ∷ (code wsaeconnreset, codes "Connection reset by peer.")
      ∷ (code wsaedestaddrreq, codes "Destination address required.")
      ∷ (code wsaefault, codes "Bad address.")
      ∷ (code wsaehostdown, codes "Host is down.")
      ∷ (code wsaehostunreach, codes "No route to host.")
      ∷ (code wsaeinprogress, codes "Operation now in progress.")
      ∷ (code wsaeintr, codes "Interrupted function call.")
      ∷ (code wsaeinval, codes "Invalid argument.")
      ∷ (code wsaeisconn, codes "Socket is already connected.")
      ∷ (code wsaemfile, codes "Too many open files.")
      ∷ (code wsaemsgsize, codes "Message too long.")
      ∷ (code wsaenetdown, codes "Network is down.")
      ∷ (code wsaenetreset, codes "Network dropped connection on reset.")
      ∷ (code wsaenetunreach, codes "Network is unreachable.")
      ∷ (code wsaenobufs, codes "No buffer space available.")
      ∷ (code wsaenoprotoopt, codes "Bad protocol option.")
      ∷ (code wsaenotconn, codes "Socket is not connected.")
      ∷ (code wsaenotsock, codes "Socket operation on nonsocket.")
      ∷ (code wsaeopnotsupp, codes "Operation not supported.")
      ∷ (code wsaepfnosupport, codes "Protocol family not supported.")
      ∷ (code wsaeproclim, codes "Too many processes.")
      ∷ (code wsaeprotonosupport, codes "Protocol not supported.")
      ∷ (code wsaeprototype, codes "Protocol wrong type for socket.")
      ∷ (code wsaeshutdown, codes "Cannot send after socket shutdown.")
      ∷ (code wsaesocktnosupport, codes "Socket type not supported.")
      ∷ (code wsaetimedout, codes "Connection timed out.")
      ∷ (code wsaewouldblock, codes "Resource temporarily unavailable.")
      ∷ (code wsahost_not_found, codes "Host not found.")
      ∷ (code wsanotinitialised, codes "Successful WSAStartup not yet performed.")
      ∷ (code wsano_data, codes "Valid name, no data record of requested type.")
      ∷ (code wsano_recovery, codes "This is a nonrecoverable error.")
      ∷ (code wsasysnotready, codes "Network subsystem is unavailable.")
      ∷ (code wsatry_again, codes "Nonauthoritative host not found.")
      ∷ (code wsavernotsupported, codes "Winsock.dll version out of range.")
      ∷ (code wsaediscon, codes "Graceful shutdown in progress.")
      ∷ []

abbrev text_of : List (ℕ × Bytes) → ℕ → Bytes
text_of [] n = codes "Unknown error."
text_of ((k, text) ∷ rest) n = if n == k then text else text_of rest n

unfoldable pub transport_strerror : (WsaError → ℕ) → ℕ → Bytes
transport_strerror code n = text_of (wsa_texts code) n

-- Where the numbers differ, each error has its own text.
text_of-Mem :
    (l : List (ℕ × Bytes)) (n : ℕ) (text : Bytes)
    → Pairwise (λ a b. a.0 ≢ b.0) l
    → Memᴰ (n, text) l
    → text_of l n ≡ text
text_of-Mem [] n text apart m = elim m [ ]
text_of-Mem ((k, own) ∷ rest) n text (cons apart h) (head e) =
    let key : n ≡ k = ap (λ x. x.0) e in
    let same : (n == k) ≡ true = ground arith in rw same (sym (ap (λ x. x.1) e))
text_of-Mem ((k, own) ∷ rest) n text (cons apart h) (tail m) =
    let key : k ≢ n = apart (n, text) ∣ m ∣₁ in
    let other : (n == k) ≡ false = ground arith in rw other (text_of-Mem rest n text h m)

-- Where WinSock's numbers differ, as the switch asks for, each error of the list has its own text.
transport_strerror-Mem :
    (code : WsaError → ℕ) (n : ℕ) (text : Bytes)
    → Pairwise (λ a b. a.0 ≢ b.0) (wsa_texts code)
    → Memᴰ (n, text) (wsa_texts code)
    → transport_strerror code n ≡ text
unfolding transport_strerror
transport_strerror-Mem code n text apart m = text_of-Mem (wsa_texts code) n text apart m
