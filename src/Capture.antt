-- ===== src/Capture.antt =====
-- `UdpCapture` of crates/fwknox-capture/src/udp.rs. A socket is the read timeout that the kernel holds
-- for it, and what its calls give is a value. The lock of `last_timeout` is never poisoned, since
-- nothing that runs under it panics. The constants of `libc` are a parameter.
use fwknox.Base.{
  replicate, ◌>>=◌, ℕ, ◌≡◌, ◌≤◌, refl, ap, ◌∙◌, Bool, true, false, Option, none, some, List, length,
  take, arith, leb, ltb, nat_beq, Result, ok, err, if◌then◌else◌, min, nat_eq, list_eq, Bool-cases,
  inl, inr, some-eq,
}
use fwknox.Proto.Types.{Bytes, IpAddr, v4, v6}
use fwknox.Config.Types.{Duration}
use fwknox.Daemon.Host.{CapturedPacket}
use fwknox.Workers.Ipc.{IoKind, would_block, timed_out, other_io}
pub mod Whole
pub mod Tests

abbrev pub max_datagram_len : ℕ
max_datagram_len = 1500

pub data CaptureError : Type 0 where
  bind recv : IoKind → CaptureError

pub record UdpSocket : Type 0 where
  pub read_timeout : Option Duration

pub record UdpCapture : Type 0 where
  pub socket : UdpSocket
  pub last_timeout : Option Duration

unfoldable pub from_socket : UdpSocket → UdpCapture
from_socket socket = record { socket = socket; last_timeout = none }

-- `bind`, of what the system gives.
unfoldable pub bind_to : Result IoKind UdpSocket → Result CaptureError UdpCapture
bind_to (ok socket) = ok (from_socket socket)
bind_to (err e) = err (bind e)

-- Address families and sizes of address structures.
pub record Libc : Type 0 where
  pub af_inet : ℕ
  pub af_inet6 : ℕ
  pub sockaddr_in : ℕ
  pub sockaddr_in6 : ℕ

-- `sockaddr_storage` as each of the two casts reads it: the addresses are in network order.
pub record SockaddrStorage : Type 0 where
  pub ss_family : ℕ
  pub sin_addr : Bytes
  pub sin6_addr : Bytes

-- What `recvmsg` gives: an error, or the number it returns, with what it has written to the buffer
-- and to `msghdr`.
pub data RecvMsg : Type 0 where
  refused : IoKind → RecvMsg
  answered :
      (reported : ℕ) (buf : Bytes) (storage : SockaddrStorage) (namelen : ℕ) (msg_trunc : Bool)
      → RecvMsg

pub data RecvOutcome : Type 0 where
  packet : (len : ℕ) (source_ip : IpAddr) → RecvOutcome
  truncated : (reported : ℕ) (source_ip : IpAddr) → RecvOutcome

-- `set_read_timeout`: what it gives, and the socket it leaves.
unfoldable pub set_read_timeout : Duration → Option IoKind → UdpSocket → UdpSocket × Option IoKind
set_read_timeout timeout none socket = (record { read_timeout = some timeout }, none)
set_read_timeout timeout (some e) socket = (socket, some e)

-- The `match` on the outcome.
unfoldable pub on_outcome :
    Bytes → Result IoKind RecvOutcome → Result CaptureError (Option CapturedPacket)
on_outcome buf (ok (packet len source_ip)) =
    ok (some (record { source_ip = source_ip; datagram = take len buf }))
on_outcome buf (ok (truncated reported source_ip)) = ok none
on_outcome buf (err would_block) = ok none
on_outcome buf (err timed_out) = ok none
on_outcome buf (err other_io) = err (recv other_io)

unfoldable pub is_cached : Option Duration → Duration → Bool
is_cached none timeout = false
is_cached (some t) timeout = nat_beq t timeout

-- The block under the lock: `set` is what `set_read_timeout` gives if it is called.
unfoldable pub store_timeout :
    Duration → UdpSocket × Option IoKind → Option Duration → UdpCapture × Option IoKind
store_timeout timeout (socket, none) cached =
    (record { socket = socket; last_timeout = some timeout }, none)
store_timeout timeout (socket, some e) cached =
    (record { socket = socket; last_timeout = cached }, some e)

unfoldable pub apply_timeout :
    Duration → (set : Option IoKind) → UdpCapture → UdpCapture × Option IoKind
apply_timeout timeout set s =
    if is_cached s.last_timeout timeout
    then (s, none)
    else store_timeout timeout (set_read_timeout timeout set s.socket) s.last_timeout

module _ (libc : Libc) where
  unfoldable pub sockaddr_storage_to_ip : SockaddrStorage → ℕ → Result IoKind IpAddr
  sockaddr_storage_to_ip storage namelen =
      if nat_beq storage.ss_family libc.af_inet
      then (if ltb namelen libc.sockaddr_in then err other_io else ok (v4 storage.sin_addr))
      else if nat_beq storage.ss_family libc.af_inet6
      then (if ltb namelen libc.sockaddr_in6 then err other_io else ok (v6 storage.sin6_addr))
      else err other_io

  -- The answer of the call, with the buffer as it leaves it.
  unfoldable pub recvmsg_with_trunc : RecvMsg → Bytes → Bytes × Result IoKind RecvOutcome
  recvmsg_with_trunc (refused e) buf = (buf, err e)
  recvmsg_with_trunc (answered reported buf storage namelen msg_trunc) old = (
    buf,
    do
      source_ip ← sockaddr_storage_to_ip storage namelen
      ok (
          if msg_trunc
          then truncated reported source_ip
          else packet (min reported (length buf)) source_ip),
  )

  unfoldable pub receive :
      RecvMsg
      → UdpCapture × Option IoKind
      → UdpCapture × Result CaptureError (Option CapturedPacket)
  receive answer (s, none) =
      let (buf, outcome) = recvmsg_with_trunc answer (replicate max_datagram_len 0) in
      (s, on_outcome buf outcome)
  receive answer (s, some e) = (s, err (recv e))

  unfoldable pub recv_timeout :
      Duration
      → (set : Option IoKind) → (answer : RecvMsg) → UdpCapture
      → UdpCapture × Result CaptureError (Option CapturedPacket)
  recv_timeout timeout set answer s = receive answer (apply_timeout timeout set s)
