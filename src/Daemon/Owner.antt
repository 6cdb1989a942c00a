-- ===== src/Daemon/Owner.antt =====
-- Which stanza a match belongs to: the first one whose key verifies the packet's HMAC.
use mathlib.Core.List.{Memᴰ}
use mathlib.Core.List.Memᴰ.{head, tail}
use fwknox.Base.{
  ◌≡◌, ◌≢◌, refl, ◌∙◌, false, List, [], ◌∷◌, String, arith, any, ◌==◌, string_eq, Result, ok, err,
  ==-refl, subst,
}
use fwknox.Proto.Types.{Bytes, SpaPayload, ProtoError, hmac_failed}
use fwknox.Proto.Crypto.{Crypto}
use fwknox.Proto.Packet.{parse_packet}
use fwknox.Config.Types.{AccessStanza}
use fwknox.Config.Valid.{AreUsable}
use fwknox.Daemon.Match.{MatchResult, matched, no_match, rejected, try_stanza, match_packet}
use fwknox.Daemon.Pipeline.{find_stanza}

-- The answers of `match_packet` by the first stanza whose parse does not end in `HmacFailed`.
pub data Owned (c : Crypto) (wire : Bytes) : List AccessStanza → MatchResult → Type 0 where
  nobody : Owned c wire [] no_match
  parsed :
      {s : AccessStanza} {rest : List AccessStanza} {p : SpaPayload}
      → parse_packet c wire s.master_key ≡ ok p
      → Owned c wire (s ∷ rest) (matched s.name p)
  broken :
      {s : AccessStanza} {rest : List AccessStanza} {e : ProtoError}
      → parse_packet c wire s.master_key ≡ err e
      → e ≢ hmac_failed
      → Owned c wire (s ∷ rest) (rejected s.name e)
  passed :
      {s : AccessStanza} {rest : List AccessStanza} {r : MatchResult}
      → parse_packet c wire s.master_key ≡ err hmac_failed
      → Owned c wire rest r
      → Owned c wire (s ∷ rest) r

match_packet-step :
    (c : Crypto) (wire : Bytes) (s : AccessStanza) (rest : List AccessStanza) (next : MatchResult)
    (r : Result ProtoError SpaPayload)
    → parse_packet c wire s.master_key ≡ r
    → Owned c wire rest next
    → Owned c wire (s ∷ rest) (try_stanza s.name r next)
unfolding try_stanza
match_packet-step c wire s rest next (ok p) e later = parsed e
match_packet-step c wire s rest next (err hmac_failed) e later = passed e later
match_packet-step c wire s rest next (err other) e later = broken e (λ h. cc)

-- `match_packet` answers for the first stanza whose key does not fail the HMAC, and for no other.
pub match_packet-Owned :
    (c : Crypto) (wire : Bytes) (stanzas : List AccessStanza)
    → Owned c wire stanzas (match_packet c wire stanzas)
unfolding match_packet
match_packet-Owned c wire [] = nobody
match_packet-Owned c wire (s ∷ rest) =
    match_packet-step c wire s rest _ _ refl (match_packet-Owned c wire rest)

-- A stanza of the list whose key the packet parses under, and which `find_stanza` finds by its name.
pub record IsOwner (c : Crypto) (wire : Bytes) (stanzas : List AccessStanza) (name : String)
    (p : SpaPayload) (s : AccessStanza) : Type 0 where
  pub listed : Memᴰ s stanzas
  pub named : s.name ≡ name
  pub parses : parse_packet c wire s.master_key ≡ ok p
  pub looked_up : find_stanza stanzas name ≡ ok s

abbrev HasOwner : Crypto → Bytes → List String → List AccessStanza → MatchResult → Type 0
HasOwner c wire seen ss (matched name p) =
    (s : AccessStanza) × IsOwner c wire ss name p s × (any (λ n. n == name) seen ≡ false)
HasOwner c wire seen ss no_match = Unit
HasOwner c wire seen ss (rejected name e) = Unit

find_stanza-head :
    (s : AccessStanza) (rest : List AccessStanza) → find_stanza (s ∷ rest) s.name ≡ ok s
unfolding find_stanza
find_stanza-head s rest = rw (==-refl s.name) refl

find_stanza-tail :
    (s : AccessStanza) (rest : List AccessStanza) (name : String)
    → (s.name == name) ≡ false
    → find_stanza (s ∷ rest) name ≡ find_stanza rest name
unfolding find_stanza
find_stanza-tail s rest name ne = rw ne refl

any-cons :
    (name n : String) (seen : List String)
    → any (λ n. n == name) (n ∷ seen) ≡ false
    → ((n == name) ≡ false) × (any (λ n. n == name) seen ≡ false)
any-cons name n seen h = ground arith

later-HasOwner :
    (c : Crypto) (wire : Bytes) (seen : List String) (s : AccessStanza) (rest : List AccessStanza)
    (r : MatchResult)
    → HasOwner c wire (s.name ∷ seen) rest r
    → HasOwner c wire seen (s ∷ rest) r
later-HasOwner c wire seen s rest (matched name p) (o, h, fresh) =
    let apart = any-cons name s.name seen fresh in
    (
      o,
      record {
        listed = tail h.listed;
        named = h.named;
        parses = h.parses;
        looked_up = find_stanza-tail s rest name apart.0 ∙ h.looked_up;
      },
      apart.1,
    )
later-HasOwner c wire seen s rest no_match h = tt
later-HasOwner c wire seen s rest (rejected name e) h = tt

Owned-HasOwner :
    {c : Crypto} {wire : Bytes} {ss : List AccessStanza} {r : MatchResult} (seen : List String)
    → Owned c wire ss r
    → AreUsable seen ss
    → HasOwner c wire seen ss r
Owned-HasOwner seen nobody u = tt
Owned-HasOwner seen (parsed {s} {rest} e) u = (
  s,
  record { listed = head refl; named = refl; parses = e; looked_up = find_stanza-head s rest },
  u.0,
)
Owned-HasOwner seen (broken e ne) u = tt
Owned-HasOwner {c} {wire} {r} seen (passed {s} {rest} e o) u =
    later-HasOwner c wire seen s rest r (Owned-HasOwner (s.name ∷ seen) o u.2)

-- In a list of stanzas that `validate` accepts, the stanza that a matched packet is given to is
-- the one whose key verified it.
pub match_packet-IsOwner :
    (c : Crypto) (wire : Bytes) (ss : List AccessStanza) {name : String} {p : SpaPayload}
    → AreUsable [] ss
    → match_packet c wire ss ≡ matched name p
    → (s : AccessStanza) × IsOwner c wire ss name p s
match_packet-IsOwner c wire ss u e =
    let (s, h, fresh) =
      subst (HasOwner c wire [] ss) e (Owned-HasOwner [] (match_packet-Owned c wire ss) u) in
    (s, h)
