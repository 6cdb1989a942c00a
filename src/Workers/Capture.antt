-- ===== src/Workers/Capture.antt =====
-- `run_capture_worker` of crates/fwknox-privsep/src/workers.rs. What the socket, the clock and the
-- flag give to each round of the loop is a value.
use fwknox.Base.{ℕ, Bool, Option, List, [], ◌∷◌, take, Result, ok, err}
use fwknox.Base.Lru.{Lru}
use fwknox.Proto.Types.{Bytes, IpAddr}
use fwknox.RateLimit.Key.{SourceKey}
use fwknox.RateLimit.Bucket.{Float, TokenBucket}
use fwknox.RateLimit.Limiter.{Decision, pass, drop, RateLimiter, check}
use fwknox.Daemon.Privsep.{CaptureMsg}
use fwknox.Workers.Ipc.{IoKind, would_block, timed_out, other_io, PrivsepError, io, Codec, send_msg}

abbrev pub capture_buffer : ℕ
capture_buffer = 1500

-- `recv_from`: the peer and its datagram, of which as much as fits is in the buffer.
pub data UdpRead : Type 0 where
  received : (peer : IpAddr) (datagram : Bytes) → UdpRead
  unread : IoKind → UdpRead

pub record CaptureTurn : Type 0 where
  pub read : UdpRead
  pub limiter_now : ℕ
  pub limiter_poisoned : Bool
  pub send_call : Option IoKind

pub data CapturePoll : Type 0 where
  shut_down : CapturePoll
  go : CaptureTurn → CapturePoll

-- What a round does: it sends a datagram, or nothing, leaves the loop, or ends the process by a panic.
pub data Step : Type 0 where
  sent : Bytes → Step
  idle : Step
  exit : PrivsepError → Step
  abort : Step

unfoldable pub step_of : Result PrivsepError Bytes → Step
step_of (ok b) = sent b
step_of (err e) = exit e

-- A timeout of a read falls through to the next look at the flag.
unfoldable pub on_io_error : IoKind → Step
on_io_error would_block = idle
on_io_error timed_out = idle
on_io_error other_io = exit (io other_io)

-- How far a worker has got: the release profile aborts where a panic begins.
pub data WorkerEnd : Type 0 where
  looping : WorkerEnd
  returned : Result PrivsepError (Unit {0}) → WorkerEnd
  died : WorkerEnd

-- What a worker has sent, and how it has ended.
abbrev pub Trace : Type 0
Trace = List Bytes × WorkerEnd

unfoldable pub after_step : Step → Trace → Trace
after_step (sent b) (out, r) = (b ∷ out, r)
after_step idle trace = trace
after_step (exit e) trace = ([], returned (err e))
after_step abort trace = ([], died)

module _ (c : Codec CaptureMsg) (f : Float) (l : Lru SourceKey (TokenBucket f)) where
  unfoldable pub on_limit : CaptureTurn → IpAddr → Bytes → Decision → Step
  on_limit t peer datagram pass = step_of (
      send_msg c t.send_call (record { source_ip = peer; datagram = take capture_buffer datagram }))
  on_limit t peer datagram (drop reason) = idle

  unfoldable pub capture_step : CaptureTurn → UdpRead → RateLimiter f l → RateLimiter f l × Step
  capture_step t (received peer datagram) limiter =
      let (limiter', decision) = check f l t.limiter_poisoned t.limiter_now peer limiter in
      (limiter', on_limit t peer datagram decision)
  capture_step t (unread kind) limiter = (limiter, on_io_error kind)

  unfoldable pub run_capture_worker : List CapturePoll → RateLimiter f l → Trace
  run_capture_worker [] limiter = ([], looping)
  run_capture_worker (shut_down ∷ polls) limiter = ([], returned (ok tt))
  run_capture_worker (go t ∷ polls) limiter =
      let (limiter', step) = capture_step t t.read limiter in
      after_step step (run_capture_worker polls limiter')
