-- ===== src/Daemon/Serve.antt =====
-- The parent's `handle_crypto_msg`: what the answer of the replay cache has to do with the firewall.
use fwknox.Base.{◌≡◌, ◌≢◌, refl, Bool, true, false, Result, ok, err, String}
use fwknox.Proto.Types.{IpAddr, SpaMessage, access, nat, local_nat, command, SpaPayload}
use fwknox.Config.Types.{DaemonConfig}
use fwknox.Replay.Cache.{ReplayError, check_and_insert}
use fwknox.Daemon.Host.{Host, State, Moment}
use fwknox.Daemon.Privsep.{valid_request, serve_request, handle_crypto_msg}

module _ (host : Host) (config : DaemonConfig) where
  pub serve_old :
      (name : String) (p : SpaPayload) (message : SpaMessage) (rules : host.firewall.State)
      → serve_request host config name p message (ok false) rules ≡ rules
  unfolding serve_request
  serve_old name p (access source ports) rules = refl
  serve_old name p (nat source ports dest) rules = refl
  serve_old name p (local_nat source ports dest) rules = refl
  serve_old name p (command source line) rules = refl

  pub serve_failed :
      (name : String) (p : SpaPayload) (message : SpaMessage) (e : ReplayError)
      (rules : host.firewall.State)
      → serve_request host config name p message (err e) rules ≡ rules
  unfolding serve_request
  serve_failed name p (access source ports) e rules = refl
  serve_failed name p (nat source ports dest) e rules = refl
  serve_failed name p (local_nat source ports dest) e rules = refl
  serve_failed name p (command source line) e rules = refl

  -- The rules change only for a nonce that the cache has accepted.
  serve-changed :
      (name : String) (p : SpaPayload) (fresh : Result ReplayError Bool)
      (rules : host.firewall.State)
      → serve_request host config name p p.message fresh rules ≢ rules
      → fresh ≡ ok true
  serve-changed name p (ok true) rules changed = refl
  serve-changed name p (ok false) rules changed =
      absurd (changed (serve_old name p p.message rules))
  serve-changed name p (err e) rules changed =
      absurd (changed (serve_failed name p p.message e rules))

  pub handle-accepted :
      (m : Moment) (name : String) (ip : IpAddr) (p : SpaPayload) (s : State host)
      → (handle_crypto_msg host m (valid_request name ip p) config s).rules ≢ s.rules
      → (check_and_insert host.lru m.replay_now m.writes p.nonce s.replay).1 ≡ ok true
  unfolding handle_crypto_msg
  handle-accepted m name ip p s changed = serve-changed name p _ s.rules changed

  pub handle-refused :
      (m : Moment) (name : String) (ip : IpAddr) (p : SpaPayload) (s : State host)
      → (check_and_insert host.lru m.replay_now m.writes p.nonce s.replay).1 ≡ ok false
      → (handle_crypto_msg host m (valid_request name ip p) config s).rules ≡ s.rules
  unfolding handle_crypto_msg
  handle-refused m name ip p s old = rw old (serve_old name p p.message s.rules)
