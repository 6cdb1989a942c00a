-- ===== src/Workers/Ipc.antt =====
-- crates/fwknox-privsep/src/ipc.rs and error.rs: a message is one datagram. The codec of `rmp-serde`
-- is a parameter, and what the kernel does with a call is a value.
use fwknox.Base.{
  map_err, ℕ, ◌≡◌, refl, false, Option, none, some, String, ltb, length, Result, ok, err, ◌>>=◌,
  ◌>>◌, fail_if, bind_then, guard_then, ok-injective, subst,
}
use fwknox.Base.Text.{is_empty}
use fwknox.Proto.Types.{Bytes}

abbrev pub max_ipc_msg : ℕ
max_ipc_msg = 8192

-- `std::io::ErrorKind`, as far as the loops tell its values apart.
pub data IoKind : Type 0 where
  would_block timed_out other_io : IoKind

-- `nix::errno::Errno`, as far as the program or the manual of a call tells its values apart.
pub data Errno : Type 0 where
  esrch echild eintr : Errno
  other_errno : ℕ → Errno

-- An error of the protocol is never made into one here: the worker sends it as a message.
pub data PrivsepError : Type 0 where
  ipc_encode : String → PrivsepError
  ipc_decode : String → PrivsepError
  io : IoKind → PrivsepError
  syscall : (name : String) (source : Errno) → PrivsepError
  peer_closed : PrivsepError
  ipc_truncated : (reported limit : ℕ) → PrivsepError

pub record Codec (M : Type 0) : Type 0 where
  pub to_vec : M → Result String Bytes
  pub from_slice : Bytes → Result String M

-- What `rmp-serde` promises: a value reads back, and its encoding has a byte at least.
pub record IsCodec {M : Type 0} (c : Codec M) : Type 0 where
  pub from-to : (m : M) {b : Bytes} → c.to_vec m ≡ ok b → c.from_slice b ≡ ok m
  pub full : (m : M) {b : Bytes} → c.to_vec m ≡ ok b → is_empty b ≡ false

-- What `recvmsg` gives: an error, or one datagram, of which as much as fits is in the buffer.
pub data RecvCall : Type 0 where
  io_failed : IoKind → RecvCall
  delivered : Bytes → RecvCall

-- The outcome of `send`: the bytes have gone out.
unfoldable pub sent_or : Option IoKind → Bytes → Result PrivsepError Bytes
sent_or none bytes = ok bytes
sent_or (some kind) bytes = err (io kind)

module _ {M : Type 0} (c : Codec M) where
  unfoldable pub send_msg : (call : Option IoKind) → M → Result PrivsepError Bytes
  send_msg call msg = do
    bytes ← map_err ipc_encode (c.to_vec msg)
    fail_if (ltb max_ipc_msg (length bytes)) (ipc_encode "message too large")
    sent_or call bytes

  unfoldable pub recv_msg : RecvCall → Result PrivsepError M
  recv_msg (io_failed kind) = err (io kind)
  recv_msg (delivered datagram) = do
    fail_if (ltb max_ipc_msg (length datagram)) (ipc_truncated (length datagram) max_ipc_msg)
    fail_if (is_empty datagram) peer_closed
    map_err ipc_decode (c.from_slice datagram)

  sent_or-ok : (call : Option IoKind) (b : Bytes) {d : Bytes} → sent_or call b ≡ ok d → b ≡ d
  unfolding sent_or
  sent_or-ok none b h = ok-injective h
  sent_or-ok (some kind) b h = absurd (cc)

  encoded : (r : Result String Bytes) {b : Bytes} → map_err ipc_encode r ≡ ok b → r ≡ ok b
  encoded (ok a) h = cc
  encoded (err e) h = absurd (cc)

  fits_back :
      (m : M) (b : Bytes)
      → IsCodec c
      → c.to_vec m ≡ ok b
      → ltb max_ipc_msg (length b) ≡ false
      → recv_msg (delivered b) ≡ ok m
  unfolding recv_msg
  fits_back m b codec e small = rw (small, codec.full m e, codec.from-to m e) refl

  -- What `send_msg` has put on the socket, `recv_msg` gives back: it is never too long for the
  -- buffer, and never taken for a closed peer.
  pub recv_msg-send_msg :
      (call : Option IoKind) (m : M) {b : Bytes}
      → IsCodec c
      → send_msg call m ≡ ok b
      → recv_msg (delivered b) ≡ ok m
  unfolding send_msg
  recv_msg-send_msg call m {b = b} codec went =
      bind_then (map_err ipc_encode (c.to_vec m)) _ went λ bytes e rest.
        guard_then (ltb max_ipc_msg (length bytes)) _ _ rest λ small out.
          let same : bytes ≡ b = sent_or-ok call bytes out in
          subst (λ d. recv_msg (delivered d) ≡ ok m) same
            (fits_back m bytes codec (encoded (c.to_vec m) e) small)
