-- ===== src/Capture/Tests.antt =====
-- A socket that has timed out once receives a datagram.
use fwknox.Base.{◌≡◌, refl, none, some, false, [], ◌∷◌, ◌++◌, arith, ok, replicate, nat_eq, list_eq}
use fwknox.Proto.Types.{Bytes, v4}
use fwknox.Workers.Ipc.{timed_out}
use fwknox.Capture.{Libc, SockaddrStorage, UdpSocket, refused, answered, from_socket, recv_timeout}
use fwknox.Capture.Whole.{armed, after_calls, from_v4, recv_timeout-whole}

-- The constants of Linux.
abbrev linux : Libc
linux = record { af_inet = 2; af_inet6 = 10; sockaddr_in = 16; sockaddr_in6 = 28 }

abbrev sender : SockaddrStorage
sender = record { ss_family = 2; sin_addr = 192 ∷ 0 ∷ 2 ∷ 1 ∷ []; sin6_addr = replicate 16 0 }

abbrev unset : UdpSocket
unset = record { read_timeout = none }

abbrev body : Bytes
body = 104 ∷ 105 ∷ []

recv_timeout-whole_example :
    recv_timeout linux 100 none
      (answered 2 (body ++ replicate 1498 0) sender 16 false)
      (after_calls linux ((100, none, refused timed_out) ∷ []) (from_socket unset))
    ≡ (armed 100, ok (some (record { source_ip = v4 (192 ∷ 0 ∷ 2 ∷ 1 ∷ []); datagram = body })))
recv_timeout-whole_example =
    recv_timeout-whole linux ((100, none, refused timed_out) ∷ []) unset 100 body
      (body ++ replicate 1498 0) 2 sender 16 false (omega arith)
      (record { whole_length = refl; sized = refl; filled = refl; flagged = refl })
      (from_v4 refl (omega arith))
