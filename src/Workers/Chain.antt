-- ===== src/Workers/Chain.antt =====
-- The three processes together.
use fwknox.Base.{
  ◌≡◌, refl, ap, ◌∙◌, subst, Bool, true, false, List, [], ◌∷◌, ◌++◌, map, take, Result, ok, err,
  ok-injective,
}
use fwknox.Base.Lru.{Lru}
use fwknox.Proto.Types.{Bytes, IpAddr}
use fwknox.Config.Types.{DaemonConfig}
use fwknox.RateLimit.Key.{SourceKey}
use fwknox.RateLimit.Bucket.{Float, TokenBucket}
use fwknox.RateLimit.Limiter.{Decision, pass, drop, RateLimiter, check}
use fwknox.Daemon.Host.{Host}
use fwknox.Daemon.Privsep.{CaptureMsg, CryptoMsg, validate_capture_msg, handle_crypto_msg}
use fwknox.Daemon.Run.{next_tick, prune_on_tick}
use fwknox.Workers.Ipc.{
  would_block, timed_out, PrivsepError, Codec, IsCodec, io_failed, delivered, send_msg, recv_msg,
  recv_msg-send_msg,
}
use fwknox.Workers.Capture.{
  capture_buffer, received, CaptureTurn, WorkerEnd, returned, sent, step_of, on_io_error,
  after_step, on_limit, capture_step,
}
use fwknox.Workers.Crypto.{
  CryptoTurn, shut_down, go, on_recv_error, reply, on_message, crypto_step, run_crypto_worker,
}
use fwknox.Workers.Parent.{ParentTurn, Serving, on_crypto_msg, parent_round}

step_of-sent : (r : Result PrivsepError Bytes) {b : Bytes} → step_of r ≡ sent b → r ≡ ok b
unfolding step_of
step_of-sent (ok a) h = cc
step_of-sent (err e) h = absurd (cc)

module _ (c : Codec CaptureMsg) (f : Float) (l : Lru SourceKey (TokenBucket f)) where
  -- What the capture worker sends on is a datagram that the limiter has passed.
  on_limit-sent :
      (t : CaptureTurn) (peer : IpAddr) (datagram : Bytes) (d : Decision) {b : Bytes}
      → on_limit c f l t peer datagram d ≡ sent b
      → (d ≡ pass)
        × (send_msg c t.send_call
              (record { source_ip = peer; datagram = take capture_buffer datagram })
            ≡ ok b)
  unfolding on_limit
  on_limit-sent t peer datagram pass h = (refl, step_of-sent _ h)
  on_limit-sent t peer datagram (drop reason) h = absurd (cc)

  capture_step-sent :
      (t : CaptureTurn) (peer : IpAddr) (datagram : Bytes) (limiter : RateLimiter f l) {b : Bytes}
      → (capture_step c f l t (received peer datagram) limiter).1 ≡ sent b
      → ((check f l t.limiter_poisoned t.limiter_now peer limiter).1 ≡ pass)
        × (send_msg c t.send_call
              (record { source_ip = peer; datagram = take capture_buffer datagram })
            ≡ ok b)
  unfolding capture_step
  capture_step-sent t peer datagram limiter h = on_limit-sent t peer datagram _ h

module _ (host : Host) (config : DaemonConfig) (from : Codec CaptureMsg)
    (to : Codec CryptoMsg) where
  reply-sent :
      (t : CryptoTurn) (panics : Bool) (msg : CaptureMsg) {b : Bytes}
      → reply host config from to t panics msg ≡ sent b
      → send_msg to t.send_call (validate_capture_msg host t.validating msg config) ≡ ok b
  unfolding reply
  reply-sent t true msg h = absurd (cc)
  reply-sent t false msg h = step_of-sent _ h

  on_message-sent :
      (t : CryptoTurn) (msg : CaptureMsg) (r : Result PrivsepError CaptureMsg) {b : Bytes}
      → r ≡ ok msg
      → on_message host config from to t r ≡ sent b
      → send_msg to t.send_call (validate_capture_msg host t.validating msg config) ≡ ok b
  unfolding on_message
  on_message-sent t msg (ok m) {b = b} e h =
      subst (λ x. send_msg to t.send_call (validate_capture_msg host t.validating x config) ≡ ok b)
        (ok-injective e) (reply-sent t t.panics m h)
  on_message-sent t msg (err d) e h = absurd (cc)

  -- One datagram through the three processes.
  module _ {f : Float} {l : Lru SourceKey (TokenBucket f)} where
    -- What the capture worker sends on of a datagram from a peer, the crypto worker answers and the
    -- parent receives is a packet that the limiter has passed, and the parent's state is then that
    -- after it has handled the verdict of `validate_capture_msg` on the first 1,500 bytes of the
    -- datagram and that peer: the messages between the processes lose and add nothing.
    pub parent_round-relay :
        (t : CaptureTurn) (u : CryptoTurn) (p : ParentTurn) (peer : IpAddr) (datagram : Bytes)
        (limiter : RateLimiter f l) (d : Serving host config to) {b b' : Bytes}
        → IsCodec from
        → IsCodec to
        → (capture_step from f l t (received peer datagram) limiter).1 ≡ sent b
        → u.recv ≡ delivered b
        → crypto_step host config from to u ≡ sent b'
        → p.recv ≡ delivered b'
        → ((check f l t.limiter_poisoned t.limiter_now peer limiter).1 ≡ pass)
          × ((parent_round host config to p d).core
              ≡ prune_on_tick host config (next_tick d.tick) p.pruning (
                  handle_crypto_msg host p.handling
                    (validate_capture_msg host u.validating
                      (record { source_ip = peer; datagram = take capture_buffer datagram })
                      config)
                    config
                    d.core))
    unfolding crypto_step parent_round on_crypto_msg
    parent_round-relay t u p peer datagram limiter d from_codec to_codec first over second out =
        let msg : CaptureMsg = record {
          source_ip = peer;
          datagram = take capture_buffer datagram;
        } in
        let (passed, sent_on) = capture_step-sent from f l t peer datagram limiter first in
        let read : recv_msg from u.recv ≡ ok msg =
          rw over (recv_msg-send_msg from t.send_call msg from_codec sent_on) in
        let replied = on_message-sent u msg (recv_msg from u.recv) read second in
        (passed, rw (out, recv_msg-send_msg to u.send_call _ to_codec replied) refl)

  -- A round that the crypto worker survives: no message, or one whose reply is sent.
  pub data IsServed (t : CryptoTurn) : Type 0 where
    waited : t.recv ≡ io_failed would_block → IsServed t
    timed : t.recv ≡ io_failed timed_out → IsServed t
    replied :
        (msg : CaptureMsg) (b : Bytes)
        → recv_msg from t.recv ≡ ok msg
        → t.panics ≡ false
        → send_msg to t.send_call (validate_capture_msg host t.validating msg config) ≡ ok b
        → IsServed t

  -- What it sends in such a round.
  unfoldable pub sends : {t : CryptoTurn} → IsServed t → List Bytes → List Bytes
  sends (waited e) out = out
  sends (timed e) out = out
  sends (replied msg b e p went) out = b ∷ out

  abbrev pub AreServed : List CryptoTurn → Type 0
  AreServed [] = Unit
  AreServed (t ∷ ts) = IsServed t × AreServed ts

  unfoldable pub all_sent : (ts : List CryptoTurn) → AreServed ts → List Bytes
  all_sent [] h = []
  all_sent (t ∷ ts) h = sends h.0 (all_sent ts h.1)

  step_over :
      (t : CryptoTurn) (h : IsServed t) (out : List Bytes) (r : WorkerEnd)
      → after_step (crypto_step host config from to t) (out, r) ≡ (sends h out, r)
  unfolding crypto_step after_step on_message on_recv_error on_io_error recv_msg reply step_of sends
  step_over t (waited e) out r = rw (e, recv_msg) refl
  step_over t (timed e) out r = rw (e, recv_msg) refl
  step_over t (replied msg b e p went) out r = rw (e, p, went) refl

  -- Timeouts do not end the crypto worker. As long as every message can be read, the validator panics
  -- on none, and every reply can be sent, it goes on until the flag is set, has then sent exactly the
  -- replies, in order, and returns `Ok`.
  pub run_crypto_worker-all_sent :
      (ts : List CryptoTurn) (h : AreServed ts)
      → run_crypto_worker host config from to (map go ts ++ (shut_down ∷ []))
        ≡ (all_sent ts h, returned (ok tt))
  unfolding run_crypto_worker all_sent
  run_crypto_worker-all_sent [] h = refl
  run_crypto_worker-all_sent (t ∷ ts) h =
      ap (after_step (crypto_step host config from to t)) (run_crypto_worker-all_sent ts h.1)
      ∙ step_over t h.0 (all_sent ts h.1) (returned (ok tt))
