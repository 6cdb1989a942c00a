-- ===== src/Daemon/Served.antt =====
-- What each outcome of `process_packet` says about the replay cache and the firewall.
use fwknox.Base.{
  ◌≡◌, ◌≤◌, refl, ap, subst, Bool, true, false, [], arith, nat_eq, list_eq, Result, ok, err, ◌>>=◌,
  ◌>>◌, Result-cases, inl, inr,
}
use fwknox.Base.Lru.{IsLru}
use fwknox.Proto.Types.{access}
use fwknox.Proto.Freshness.{validate_against_clock, default_max_skew_secs}
use fwknox.Config.Types.{Duration, as_secs, DaemonConfig}
use fwknox.Config.Valid.{AreUsable}
use fwknox.Replay.Cache.{ReplayError, Store}
use fwknox.Replay.Check.{IsStore, seen, Checked, check_and_insert-Checked}
use fwknox.Firewall.Backend.{AccessRule, RuleHandle, FirewallError}
use fwknox.Daemon.Host.{Host, State, Moment, CapturedPacket, Reason, now_unix, age_limit}
use fwknox.Daemon.Match.{MatchResult, matched, no_match, rejected}
use fwknox.Daemon.Owner.{match_packet-IsOwner}
use fwknox.Daemon.Pipeline.{
  clamp_timeout, take_match, or_return, Request, Outcome, installed, replayed, no_stanza, refused,
  invariant_violation, firewall, authenticate, check_policy, access_rule, install, after_replay,
  process_packet,
}
use fwknox.Daemon.Steps.{process_stop, process_go, admit_refused, admit_allowed}
use fwknox.Daemon.Policy.{
  IsAllowed, check_policy-IsAllowed, IsAuthentic, authenticate-IsAuthentic, take_match-eq-ok,
}

-- The early returns of the steps before the replay check.
abbrev pub IsStop : Outcome → Type 0
IsStop (ok (installed name h)) = ⊥
IsStop (ok (replayed name)) = ⊥
IsStop (ok no_stanza) = Unit
IsStop (ok (refused name reason)) = Unit
IsStop (err e) = ⊥

abbrev pub Stops {ℓ} : {A : Type ℓ} → Result Outcome A → Type 0
Stops (ok a) = Unit
Stops (err out) = IsStop out

bind-Stops {ℓ κ} :
    {A : Type ℓ} {B : Type κ} (m : Result Outcome A) (f : A → Result Outcome B)
    → Stops m
    → ((a : A) → m ≡ ok a → Stops (f a))
    → Stops (m >>= f)
bind-Stops (ok a) f h k = k a refl
bind-Stops (err out) f h k = h

then-Stops :
    {A : Type 0} (m : Result Outcome (Unit {0})) (n : Result Outcome A)
    → Stops m
    → Stops n
    → Stops (m >> n)
then-Stops (ok u) n h k = k
then-Stops (err out) n h k = h

clamp_timeout-le : (d limit : Duration) → clamp_timeout d limit ≤ limit
unfolding clamp_timeout
clamp_timeout-le d limit = ground arith

take_match-Stops : (r : MatchResult) → Stops (take_match r)
unfolding take_match
take_match-Stops (matched name p) = tt
take_match-Stops no_match = tt
take_match-Stops (rejected name e) = tt

or_return-ok {ℓ κ} :
    {E : Type ℓ} {A : Type κ} (r : Result E A) (f : E → Outcome) {a : A}
    → r ≡ ok a
    → Stops (or_return r f)
or_return-ok (ok a) f h = tt
or_return-ok (err e) f h = absurd (cc)

or_return-Stops {ℓ κ} :
    {E : Type ℓ} {A : Type κ} (r : Result E A) (f : E → Outcome)
    → ((e : E) → IsStop (f e))
    → Stops (or_return r f)
or_return-Stops (ok a) f h = tt
or_return-Stops (err e) f h = h e

module _ (host : Host) (lru : IsLru host.lru) where
  -- The rule for what the payload asks, with a timeout within the daemon's limit.
  pub record IsRuleFor (config : DaemonConfig) (r : Request) (rule : AccessRule) : Type 0 where
    pub asks : r.payload.message ≡ access rule.source_ip rule.ports
    pub bounded : rule.timeout ≤ config.daemon.max_fw_timeout

  -- A packet that reached the firewall: authentic, fresh, never seen before, now remembered, and
  -- allowed by the policy of its stanza.
  pub record IsAdmitted (m : Moment) (config : DaemonConfig) (captured : CapturedPacket)
      (s s' : State host) (r : Request) (rule : AccessRule) : Type 0 where
    pub authentic : IsAuthentic host m config captured r
    pub unseen : seen lru r.payload.nonce s.replay ≡ false
    pub remembered : seen lru r.payload.nonce s'.replay ≡ true
    pub allowed : IsAllowed host r.stanza captured.source_ip rule.source_ip rule.ports
    pub rule_for : IsRuleFor config r rule

  -- What the state is after each outcome.
  abbrev pub Served :
      Moment → DaemonConfig → CapturedPacket → State host → State host → Outcome → Type 0
  Served m config captured s s' (ok (installed name h)) =
      (r : Request) × (rule : AccessRule) × IsAdmitted m config captured s s' r rule
      × (r.stanza_name ≡ name)
      × (host.firewall.open_access rule s.rules ≡ (s'.rules, ok h))
  Served m config captured s s' (ok (replayed name)) =
      (r : Request) × IsAuthentic host m config captured r
      × (seen lru r.payload.nonce s.replay ≡ true)
      × (s' ≡ s)
  Served m config captured s s' (ok no_stanza) = s' ≡ s
  Served m config captured s s' (ok (refused name reason)) = s'.rules ≡ s.rules
  Served m config captured s s' (err (firewall e)) =
      (r : Request) × (rule : AccessRule) × IsAdmitted m config captured s s' r rule
      × (host.firewall.open_access rule s.rules ≡ (s'.rules, err e))
  Served m config captured s s' (err (invariant_violation name)) = ⊥

  module _ (m : Moment) (config : DaemonConfig) (captured : CapturedPacket)
      (usable : AreUsable [] config.access) where
    pub authenticate-Stops : Stops (authenticate host m config captured)
    unfolding authenticate
    authenticate-Stops = bind-Stops _ _ (take_match-Stops _) λ f found.
        let (o, owner) =
          match_packet-IsOwner host.crypto captured.datagram config.access usable
            (take_match-eq-ok _ found) in
        bind-Stops _ _ (or_return-ok _ err owner.looked_up) λ s looked_up.
          then-Stops
            (or_return
              (validate_against_clock f.1 (now_unix m.unix)
                (age_limit (as_secs config.daemon.max_spa_packet_age)) default_max_skew_secs)
              (λ e. ok (refused f.0 (Reason.protocol e))))
            (ok (record { stanza_name = f.0; payload = f.1; stanza = s }))
            (or_return-Stops
              (validate_against_clock f.1 (now_unix m.unix)
                (age_limit (as_secs config.daemon.max_spa_packet_age)) default_max_skew_secs)
              (λ e. ok (refused f.0 (Reason.protocol e))) (λ e. tt))
            tt

    Stop-Served : (s : State host) (out : Outcome) → IsStop out → Served m config captured s s out
    Stop-Served s (ok (installed name h)) i = absurd i
    Stop-Served s (ok (replayed name)) i = absurd i
    Stop-Served s (ok no_stanza) i = refl
    Stop-Served s (ok (refused name reason)) i = refl
    Stop-Served s (err e) i = absurd i

    install-Served :
        (s : State host) (store : Store host.lru) (r : Request) (rule : AccessRule)
        (x : host.firewall.State × Result FirewallError RuleHandle)
        → host.firewall.open_access rule s.rules ≡ x
        → ((rules : host.firewall.State)
            → IsAdmitted m config captured s (record { replay = store; rules = rules }) r rule)
        → let (rules, out) = install host r.stanza_name x in
          Served m config captured s (record { replay = store; rules = rules }) out
    unfolding install
    install-Served s store r rule (rules, ok h) e adm = (r, rule, adm rules, refl, e)
    install-Served s store r rule (rules, err d) e adm = (r, rule, adm rules, e)

    after_replay-Served :
        (s : State host) (r : Request) (store : Store host.lru) (fresh : Result ReplayError Bool)
        → IsAuthentic host m config captured r
        → Checked lru m.replay_now r.payload.nonce s.replay store fresh
        → let (rules, out) = after_replay host config captured.source_ip r fresh s.rules in
          Served m config captured s (record { replay = store; rules = rules }) out
    unfolding after_replay access_rule
    after_replay-Served s r store (ok false) a c =
        (r, a, c.0, ap (λ x. let t : State host = record { replay = x; rules = s.rules } in t) c.1)
    after_replay-Served s r store (err e) a c = refl
    after_replay-Served s r store (ok true) a c =
        elim (Result-cases (check_policy host r.stanza captured.source_ip r.payload.message)) [
          | inl (asked, granted) ↦
              let (asks, allowed) =
                check_policy-IsAllowed host r.stanza captured.source_ip r.payload.message granted in
              let rule = access_rule config.daemon r.stanza r.payload asked in
              rw (admit_allowed host m config captured r s.rules granted) (
                install-Served s store r rule _ refl (λ rules. record {
                  authentic = a;
                  unseen = c.0;
                  remembered = c.1;
                  allowed = allowed;
                  rule_for = record { asks = asks; bounded = clamp_timeout-le _ _ };
                }))
          | inr (reason, denied) ↦ rw (admit_refused host m config captured r s.rules denied) refl
        ]

    -- Under a list of stanzas that `validate` accepts and a well-formed replay cache, with the
    -- laws of the `lru` crate: `process_packet` installs a rule, or fails in the backend, only
    -- with a rule within the timeout limit for an authentic, fresh packet whose nonce was unknown
    -- and is now remembered and which its stanza allows; a replay is of a known nonce and changes
    -- nothing; a packet of no stanza changes nothing; a refusal leaves the firewall alone; and the
    -- lookup of the stanza never fails.
    pub process_packet-Served :
        (s : State host)
        → IsStore lru s.replay
        → let (s', out) = process_packet host m config captured s in
          Served m config captured s s' out
    process_packet-Served s h = elim (Result-cases (authenticate host m config captured)) [
      | inl (r, e) ↦ rw (process_go host m config captured s e) (
          after_replay-Served s r _ _ (authenticate-IsAuthentic host m config captured usable e)
            (check_and_insert-Checked lru m.replay_now m.writes r.payload.nonce s.replay h))
      | inr (out, e) ↦
          rw (process_stop host m config captured s e)
            (Stop-Served s out (subst Stops e authenticate-Stops))
    ]
