-- ===== src/Firewall/Nft/Sample.antt =====
-- A kernel that keeps a ruleset: an instance of what the backend asks of `nft`.
use fwknox.Base.{
  ◌≡◌, sym, Bool, true, false, not, Option, none, some, List, [], any, all, ok, err, Result,
  some-eq, ◌∙◌,
}
use fwknox.Base.Text.{codes}
use fwknox.Firewall.Backend.{FirewallError, backend}
use fwknox.Firewall.Nft.Objects.{element, NfObject, delete, RulesetApplier}
use fwknox.Firewall.Nft.Backend.{Key}
use fwknox.Firewall.Nft.Ruleset.{Place, Ruleset, keys_of, runs}
use fwknox.Firewall.Nft.AllowSet.{IsKernel}

abbrev lacks_one : Ruleset → Place → Option (List Key) → Bool
lacks_one v p none = false
lacks_one v p (some ks) = not (all (v.holds p) ks)

-- A deletion of what is not there.
unfoldable pub misses : Ruleset → NfObject → Bool
misses v (delete (element f t n es)) =
    lacks_one v (record { family = f; table = t; name = n }) (keys_of es)
misses v _ = false

unfoldable pub commit :
    Ruleset → (misses_one : Bool) → Option Ruleset → Ruleset × Result FirewallError (Unit {0})
commit v true o = (v, err (backend (codes "stderr=\"No such file or directory\"")))
commit v false none = (v, err (backend (codes "stderr=\"not supported\"")))
commit v false (some v') = (v', ok tt)

abbrev pub ruleset_kernel : RulesetApplier
ruleset_kernel = record {
  Kernel = Ruleset;
  apply = λ b v. commit v (any (misses v) b) (runs b (some v));
  get_current = λ v. ok [];
}

abbrev pub shown : Ruleset → Ruleset
shown v = v

commit-ok :
    (v : Ruleset) (m : Bool) (o : Option Ruleset) {w : Ruleset}
    → commit v m o ≡ (w, ok tt)
    → o ≡ some w
unfolding commit
commit-ok v true o e = absurd (cc)
commit-ok v false none e = absurd (cc)
commit-ok v false (some x) e = cc

commit-err :
    (v : Ruleset) (m : Bool) (o : Option Ruleset) {w : Ruleset} {d : FirewallError}
    → commit v m o ≡ (w, err d)
    → w ≡ v
unfolding commit
commit-err v true o e = cc
commit-err v false none e = cc
commit-err v false (some x) e = absurd (cc)

pub ruleset_kernel-IsKernel : IsKernel ruleset_kernel shown
ruleset_kernel-IsKernel = record {
  applied = λ b s e ran. some-eq (sym (commit-ok s _ (runs b (some s)) e) ∙ ran);
  refused = λ b s e. commit-err s _ (runs b (some s)) e;
}
