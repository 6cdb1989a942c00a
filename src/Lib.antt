-- ===== src/Lib.antt =====
-- A model of fwknox: Single Packet Authorization, from the client's command line over one UDP datagram
-- to one firewall rule.
--
-- A client resolves its arguments, seals a payload and signs it (crates/fwknox-client,
-- crates/fwknox-proto); the daemon reads a configuration (crates/fwknox-config), takes a datagram that
-- the rate limiter passes (crates/fwknox-ratelimit), finds the access stanza whose key verifies it,
-- checks the clock, the replay cache (crates/fwknox-replay) and the stanza's policy, and has a backend
-- open the firewall (crates/fwknox-firewall). It does so in one process (pipeline.rs and run.rs of
-- crates/fwknox-daemon) or in three, which pass messages (validate.rs, privsep_run.rs,
-- crates/fwknox-privsep).
--
-- Files and what they model:
--   Proto/Types, Display, Header, Payload, Packet/Wire, Freshness: types.rs, error.rs, header.rs,
--     payload.rs, packet.rs and validate.rs of crates/fwknox-proto. Bytes are numbers in a list; the
--     sizes and the masks are those of the source. Proto/Crypto: hmac.rs, aead.rs and kdf.rs over a
--     record Crypto of what the crates `ring` and `rmp-serde` do; IsSound holds what their
--     documentation promises and the round trip needs.
--   Config/Types, Validate, Parse: daemon.rs, shared.rs and error.rs of crates/fwknox-config. A
--     Duration is a number of nanoseconds, a path the list of its components. Config/Client:
--     client.rs and load.rs.
--   Replay/Cache, Hex, File: cache.rs and persist.rs of crates/fwknox-replay. Store is the LRU map, the
--     path and the file, which stands for the entries read back from it; a write is given by which of
--     its system calls succeed, so every failure is a case. File has the text of the file. The crate
--     `lru` is the record Base.Lru.Lru with the laws IsLru.
--   Firewall/Backend, Mock: rule.rs, error.rs, backend.rs and mock.rs of crates/fwknox-firewall. The
--     trait is a record whose methods take and return the backend's state. Firewall/Nft: nftables.rs;
--     Objects has those forms of the crate `nftables` that the source builds or looks at, and the
--     trait RulesetApplier as a parameter over the state of the kernel. Nft/Ruleset has what `nft`
--     documents of the commands, and when a ruleset accepts a packet, apart from the code.
--   RateLimit/Key, Bucket, Limiter, Snapshot: key.rs, bucket.rs, stats.rs, clock.rs, limiter.rs of
--     crates/fwknox-ratelimit. The operations on `f64` are a record of parameters; the
--     counters wrap at 2^64; an argument says whether the lock is poisoned.
--   Daemon/Host, Match, Pipeline, Privsep, Run: matcher.rs, pipeline.rs, validate.rs, the handler of
--     privsep_run.rs, and run.rs of crates/fwknox-daemon. A step takes a Moment, which holds the clock
--     readings and the outcome of the calls that write the cache file, and the State of replay cache
--     and firewall. An early return is the error of a Result; a reason for a rejection is a value
--     where the source formats a text. A loop takes the list of what the system gives to its rounds
--     (the flag, a datagram or none, clocks, outcomes), and has no result while the list holds no end.
--   Workers/Ipc, Capture, Crypto, Parent: ipc.rs, error.rs and workers.rs of crates/fwknox-privsep, and
--     the loop of privsep_run.rs, in the same way. The codec of the messages is a parameter.
--   Workers/Fork: fork.rs of crates/fwknox-privsep, over a parameter for the kernel's processes.
--   Workers/Child: the children's branches in privsep_run.rs, and panic.rs of crates/fwknox-sandbox.
--   Daemon/Boot: bin/fwknoxd.rs and bin/fwknoxd-mock.rs, from the configuration to the loop.
--   Sandbox/Steps, Landlock, Seccomp, Apply: crates/fwknox-sandbox, over the record Sandbox.System of
--     what the kernel and the crates `caps`, `nix`, `landlock` and `seccompiler` do. Sandbox/Linux has
--     what the kernel documents, and Sandbox/Toy a small kernel that obeys it.
--   Capture: udp.rs and error.rs of crates/fwknox-capture, by what each call of the socket gives.
--   Client/Packet, Main: packet.rs, cli.rs, error.rs, keygen.rs and bin/fwknox.rs of
--     crates/fwknox-client. What the program prints or sends is its result.
--   Base: tests, lists, integers, association lists, texts and the result type that these share. A text
--     that is taken apart is the list of its code points, any other is a native string.
--   The other files hold proofs and are named for what they prove; Sample, Tests and Scenarios hold
--   concrete values, runs, and the theorems at those.
--
-- Machine integers: a `u64` cast to `i64`, the subtraction on `i64` in validate.rs, and the tick counters
-- wrap around, as in the release profile, which has no overflow checks; and a panic aborts, as that
-- profile has it. Loops are recursions on their lists; no fuel is needed but for the digits of a
-- decimal, 20 of them, as many as a `u64` has.
--
-- Not modelled: fork itself and the signal handlers (system calls, whose outcomes are values), reading
-- TOML, base64 and addresses (crates and the standard library, which are parameters), the daemon's
-- command line, logging and the messages to systemd, the text that
-- SystemApplier makes of an error of `nft`, and the time at which the kernel drops an element.
pub mod Base
pub mod Proto
pub mod Config
pub mod Replay
pub mod Firewall
pub mod RateLimit
pub mod Daemon
pub mod Workers
pub mod Capture
pub mod Sandbox
pub mod Client
