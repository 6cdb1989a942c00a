-- ===== src/Firewall/Nft/AllowSet.antt =====
-- What a firewall promises the daemon: the packets that it accepts. The nftables backend keeps the
-- promise on a kernel that applies a batch command by command as `nft` documents, or not at all.
use fwknox.Base.{◌≡◌, false, ◌||◌, some, ok, err, ◌⊎◌}
use fwknox.Proto.Types.{Bytes, v4}
use fwknox.Firewall.Backend.{AccessRule, RuleHandle, FirewallError, FirewallBackend}
use fwknox.Firewall.Nft.Objects.{Nftables, RulesetApplier}
use fwknox.Firewall.Nft.Backend.{Key, NftablesBackend}
use fwknox.Firewall.Nft.Ruleset.{among, Ruleset, runs, own_set, accepts, IsOwn, IsReady, wanted}

-- What `nft` documents, as of one moment: of the ruleset that is seen, a batch that is taken has the
-- effect of its commands, where it holds none but those that are described, and a refused batch has
-- changed nothing.
pub record IsKernel (a : RulesetApplier) (shows : a.Kernel → Ruleset) : Type 0 where
  pub applied :
      (b : Nftables) (s : a.Kernel) {s' : a.Kernel} {v : Ruleset}
      → a.apply b s ≡ (s', ok tt)
      → runs b (some (shows s)) ≡ some v
      → shows s' ≡ v
  pub refused :
      (b : Nftables) (s : a.Kernel) {s' : a.Kernel} {e : FirewallError}
      → a.apply b s ≡ (s', err e)
      → shows s' ≡ shows s

-- The promise. A failed call leaves the ruleset as it is.
pub record IsAllowSet (b : FirewallBackend) (rules : b.State → Ruleset) : Type 0 where
  pub init_opens :
      (s : b.State)
      → IsOwn (rules s)
      → (b.init s).1 ≡ ok tt
      → IsReady (rules (b.init s).0)
        × ((k : Key) → accepts (rules (b.init s).0) k ≡ (rules s).holds own_set k)
  pub init_fails :
      (s : b.State) {e : FirewallError} → (b.init s).1 ≡ err e → rules (b.init s).0 ≡ rules s
  pub open_grants :
      (access : AccessRule) (s : b.State) {h : RuleHandle}
      → IsReady (rules s)
      → (b.open_access access s).1 ≡ ok h
      → (octets : Bytes) × (access.source_ip ≡ v4 octets)
        × IsReady (rules (b.open_access access s).0)
        × ((k : Key)
            → accepts (rules (b.open_access access s).0) k
              ≡ (among k (wanted octets access.ports) || accepts (rules s) k))
  pub open_fails :
      (access : AccessRule) (s : b.State) {e : FirewallError}
      → (b.open_access access s).1 ≡ err e
      → rules (b.open_access access s).0 ≡ rules s
  pub remove_fails :
      (h : RuleHandle) (s : b.State) {e : FirewallError}
      → (b.remove_rule h s).1 ≡ err e
      → rules (b.remove_rule h s).0 ≡ rules s
  pub flush_ok : (s : b.State) → (b.flush s).1 ≡ ok tt
  pub flush_empties :
      (s : b.State)
      → ((k : Key) → accepts (rules (b.flush s).0) k ≡ false) ⊎ (rules (b.flush s).0 ≡ rules s)

module _ {a : RulesetApplier} {shows : a.Kernel → Ruleset} (kernel : IsKernel a shows) where
  abbrev pub seen_rules : NftablesBackend a → Ruleset
  seen_rules s = shows s.kernel
