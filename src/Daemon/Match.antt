-- ===== src/Daemon/Match.antt =====
-- crates/fwknox-daemon/src/matcher.rs: which stanza a packet belongs to.
use fwknox.Base.{List, [], ◌∷◌, String, Result, ok, err}
use fwknox.Proto.Types.{Bytes, SpaPayload, ProtoError, hmac_failed}
use fwknox.Proto.Crypto.{Crypto}
use fwknox.Proto.Packet.{parse_packet}
use fwknox.Config.Types.{AccessStanza}

pub data MatchResult : Type 0 where
  matched : (stanza_name : String) (payload : SpaPayload) → MatchResult
  no_match : MatchResult
  rejected : (stanza_name : String) (reason : ProtoError) → MatchResult

-- One round of the loop: what it returns, or `next` if it goes on.
unfoldable pub try_stanza : String → Result ProtoError SpaPayload → MatchResult → MatchResult
try_stanza name (ok payload) next = matched name payload
try_stanza name (err hmac_failed) next = next
try_stanza name (err other) next = rejected name other

unfoldable pub match_packet : Crypto → Bytes → List AccessStanza → MatchResult
match_packet c wire [] = no_match
match_packet c wire (stanza ∷ stanzas) =
    try_stanza stanza.name (parse_packet c wire stanza.master_key) (match_packet c wire stanzas)
