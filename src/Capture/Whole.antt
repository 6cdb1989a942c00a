-- ===== src/Capture/Whole.antt =====
-- A datagram is passed on whole or not at all, and the socket has the timeout that was asked for.
use fwknox.Base.{
  ℕ, zero, suc, ◌≡◌, ◌≢◌, ◌≤◌, refl, ap, ◌∙◌, Bool, true, false, Option, none, some, List, [], ◌∷◌,
  length, take, arith, leb, ltb, ok, if◌then◌else◌, min, nat_eq, list_eq, Bool-cases, inl, inr,
}
use fwknox.Proto.Types.{Bytes, IpAddr, v4, v6}
use fwknox.Config.Types.{Duration}
use fwknox.Workers.Ipc.{IoKind}
use fwknox.Capture.{
  max_datagram_len, UdpSocket, UdpCapture, from_socket, Libc, SockaddrStorage, RecvMsg, answered,
  set_read_timeout, sockaddr_storage_to_ip, recvmsg_with_trunc, on_outcome, is_cached,
  store_timeout, apply_timeout, receive, recv_timeout,
}

-- What `recvmsg` documents of a datagram: it returns its length, the buffer begins with as much of it
-- as fits, and the flag says whether anything is missing.
pub record IsDelivery (d : Bytes) (size reported : ℕ) (buf : Bytes) (msg_trunc : Bool)
    : Type 0 where
  pub whole_length : reported ≡ length d
  pub sized : length buf ≡ size
  pub filled : take (length d) buf ≡ take size d
  pub flagged : msg_trunc ≡ ltb size (length d)

-- The address that the kernel has written.
pub data IsFrom (libc : Libc) (storage : SockaddrStorage) (namelen : ℕ) : IpAddr → Type 0 where
  from_v4 :
      storage.ss_family ≡ libc.af_inet
      → libc.sockaddr_in ≤ namelen
      → IsFrom libc storage namelen (v4 storage.sin_addr)
  from_v6 :
      storage.ss_family ≡ libc.af_inet6
      → libc.sockaddr_in6 ≤ namelen
      → IsFrom libc storage namelen (v6 storage.sin6_addr)

-- The cached timeout is the socket's.
abbrev pub IsArmed : UdpCapture → Type 0
IsArmed s = (t : Duration) → s.last_timeout ≡ some t → s.socket.read_timeout ≡ some t

abbrev pub armed : Duration → UdpCapture
armed t = record { socket = record { read_timeout = some t }; last_timeout = some t }

take-all : (n : ℕ) (d : Bytes) → length d ≤ n → take n d ≡ d
take-all zero [] le = refl
take-all zero (x ∷ d) le = absurd (omega arith)
take-all (suc n) [] le = refl
take-all (suc n) (x ∷ d) le = ap (◌∷◌ x) (take-all n d (omega arith))

set-IsArmed :
    (timeout : Duration) (set : Option IoKind) (s : UdpCapture)
    → IsArmed s
    → IsArmed (store_timeout timeout (set_read_timeout timeout set s.socket) s.last_timeout).0
unfolding store_timeout set_read_timeout
set-IsArmed timeout none s h t e = e
set-IsArmed timeout (some x) s h t e = h t e

apply_timeout-IsArmed :
    (timeout : Duration) (set : Option IoKind) (s : UdpCapture)
    → IsArmed s
    → IsArmed (apply_timeout timeout set s).0
unfolding apply_timeout
apply_timeout-IsArmed timeout set s h = elim (Bool-cases (is_cached s.last_timeout timeout)) [
  | inl same ↦ rw same h
  | inr other ↦ rw other (set-IsArmed timeout set s h)
]

is_cached-eq :
    (cached : Option Duration) (timeout : Duration)
    → is_cached cached timeout ≡ true
    → cached ≡ some timeout
unfolding is_cached
is_cached-eq none timeout e = absurd (cc)
is_cached-eq (some t) timeout e = ap some (ground arith)

no_longer : (a b : ℕ) → leb a b ≡ true → (a ≤ b) × (ltb b a ≡ false)
no_longer a b e = (ground arith, ground arith)

longer : (a b : ℕ) → leb a b ≡ false → ltb b a ≡ true
longer a b e = ground arith

module _ (libc : Libc) where
  -- What the calls of `recv_timeout` leave of the backend.
  unfoldable pub after_calls : List (Duration × Option IoKind × RecvMsg) → UdpCapture → UdpCapture
  after_calls [] s = s
  after_calls ((timeout, set, answer) ∷ calls) s =
      after_calls calls (recv_timeout libc timeout set answer s).0

  receive-state :
      (answer : RecvMsg) (a : UdpCapture × Option IoKind) → (receive libc answer a).0 ≡ a.0
  unfolding receive
  receive-state answer (s, none) = refl
  receive-state answer (s, some e) = refl

  after_calls-IsArmed :
      (calls : List (Duration × Option IoKind × RecvMsg)) (s : UdpCapture)
      → IsArmed s
      → IsArmed (after_calls calls s)
  unfolding after_calls recv_timeout
  after_calls-IsArmed [] s h = h
  after_calls-IsArmed ((timeout, set, answer) ∷ calls) s h = after_calls-IsArmed calls _ (
      rw (receive-state answer (apply_timeout timeout set s))
        (apply_timeout-IsArmed timeout set s h))

  -- Once the socket is armed, what is left is the answer of `recvmsg`.
  armed-receive :
      (timeout : Duration) (answer : RecvMsg) (s : UdpCapture)
      → IsArmed s
      → recv_timeout libc timeout none answer s ≡ receive libc answer (armed timeout, none)
  unfolding recv_timeout apply_timeout store_timeout set_read_timeout
  armed-receive timeout answer s h = elim (Bool-cases (is_cached s.last_timeout timeout)) [
    | inl same ↦
        let cached = is_cached-eq s.last_timeout timeout same in
        rw same (
          ap (λ a. receive libc answer (a, none))
            (λ i. record {
              socket = record { read_timeout = h timeout cached i };
              last_timeout = cached i;
            }))
    | inr other ↦ rw other refl
  ]

  receive-whole :
      (d buf : Bytes) (reported : ℕ) (storage : SockaddrStorage) (namelen : ℕ) (msg_trunc : Bool)
      (ip : IpAddr) (s : UdpCapture)
      → IsDelivery d max_datagram_len reported buf msg_trunc
      → sockaddr_storage_to_ip libc storage namelen ≡ ok ip
      → receive libc (answered reported buf storage namelen msg_trunc) (s, none) ≡ (
        s,
        ok (
            if leb (length d) max_datagram_len
            then some (record { source_ip = ip; datagram = d })
            else none),
      )
  unfolding receive recvmsg_with_trunc on_outcome
  receive-whole d buf reported storage namelen msg_trunc ip s h from =
      elim (Bool-cases (leb (length d) max_datagram_len)) [
        | inl fits ↦
            let (le, short) = no_longer (length d) max_datagram_len fits in
            let clear : msg_trunc ≡ false = h.flagged ∙ short in
            let len : min reported (length buf) ≡ length d =
              omega (arith, le, h.whole_length, h.sized) in
            let body : take (min reported (length buf)) buf ≡ d =
              ap (λ k. take k buf) len ∙ h.filled ∙ take-all max_datagram_len d le in
            rw (fits, from, clear, body) refl
        | inr long ↦
            let set : msg_trunc ≡ true = h.flagged ∙ longer (length d) max_datagram_len long in
            rw (long, from, set) refl
      ]

  sockaddr_storage_to_ip-IsFrom :
      {storage : SockaddrStorage} {namelen : ℕ} {ip : IpAddr}
      → libc.af_inet ≢ libc.af_inet6
      → IsFrom libc storage namelen ip
      → sockaddr_storage_to_ip libc storage namelen ≡ ok ip
  unfolding sockaddr_storage_to_ip
  sockaddr_storage_to_ip-IsFrom apart (from_v4 family size) = ground arith
  sockaddr_storage_to_ip-IsFrom apart (from_v6 family size) = ground arith

  -- After any calls on a wrapped socket, whatever the system has given to them, when `recvmsg` answers
  -- with a datagram as it documents, from an address of one of the two families, and
  -- `set_read_timeout` goes through if it is called, `recv_timeout` leaves the socket with the timeout
  -- that was asked for, and gives the whole datagram with its sender if that is within 1500 bytes, and
  -- else nothing.
  pub recv_timeout-whole :
      (calls : List (Duration × Option IoKind × RecvMsg)) (socket : UdpSocket) (timeout : Duration)
      (d buf : Bytes) (reported : ℕ) (storage : SockaddrStorage) (namelen : ℕ) (msg_trunc : Bool)
      {ip : IpAddr}
      → libc.af_inet ≢ libc.af_inet6
      → IsDelivery d max_datagram_len reported buf msg_trunc
      → IsFrom libc storage namelen ip
      → recv_timeout libc timeout none
          (answered reported buf storage namelen msg_trunc)
          (after_calls calls (from_socket socket))
        ≡ (
          armed timeout,
          ok (
              if leb (length d) max_datagram_len
              then some (record { source_ip = ip; datagram = d })
              else none),
        )
  unfolding from_socket
  recv_timeout-whole calls socket timeout d buf reported storage namelen msg_trunc apart h from =
      armed-receive timeout _ _
        (after_calls-IsArmed calls (from_socket socket) (λ t e. absurd (cc)))
      ∙ receive-whole d buf reported storage namelen msg_trunc _ (armed timeout) h
          (sockaddr_storage_to_ip-IsFrom apart from)
