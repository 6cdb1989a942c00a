-- ===== src/Workers/Tests.antt =====
-- One packet through the three processes, and the loops at concrete rounds.
use fwknox.Base.{
  ◌≡◌, refl, true, false, none, some, List, [], ◌∷◌, ◌++◌, map, take, ok, nat_eq, list_eq,
  string_eq,
}
use fwknox.Base.Lru.{list_lru, list_lru-IsLru}
use fwknox.Proto.Types.{Bytes}
use fwknox.Config.Sample.{config}
use fwknox.Replay.Check.{IsStore}
use fwknox.Firewall.Mock.{mock_flush, mock_init}
use fwknox.RateLimit.Key.{key_eq}
use fwknox.RateLimit.Limiter.{pass, check}
use fwknox.RateLimit.Sample.{numbers, limiter}
use fwknox.Daemon.Privsep.{CaptureMsg, validate_capture_msg, handle_crypto_msg}
use fwknox.Daemon.Sample.{host, moment, client, later, started, started-IsStore}
use fwknox.Daemon.Run.{next_tick, prune_on_tick, flush_if, start, finish}
use fwknox.Base.Int.{sub_i64}
use fwknox.Base.Assoc.{lookup}
use fwknox.Proto.Header
use fwknox.Proto.Crypto.{derive, aead_open, hmac_check}
use fwknox.Proto.Payload
use fwknox.Proto.Packet.{derive_flags, check_flags_match_payload, open_signed, parse_packet}
use fwknox.Proto.Freshness.{validate_against_clock}
use fwknox.Config.Types.{matches}
use fwknox.Daemon.Host.{now_unix, age_limit}
use fwknox.Daemon.Match.{try_stanza, match_packet}
use fwknox.Daemon.Pipeline.{find_stanza}
use fwknox.Daemon.Privsep.{take_match_msg, take_access_msg, check_ports_msg}
use fwknox.RateLimit.Bucket.{new_bucket, consume, refill}
use fwknox.RateLimit.Limiter.{
  check_inner, lock_recovering, check_locked, serve_global, count_candidate, admit_candidate,
  promote, with_clock,
}
use fwknox.Workers.Ipc.{
  delivered, io_failed, timed_out, send_msg, sent_or, recv_msg, recv_msg-send_msg,
}
use fwknox.Workers.Capture.{
  received, CaptureTurn, returned, sent, step_of, on_limit, capture_step, capture_buffer,
}
use fwknox.Workers.Crypto.{
  CryptoTurn, shut_down, go, reply, on_message, crypto_step, run_crypto_worker,
}
use fwknox.Workers.Parent.{ParentTurn, Serving, parent_round, run_privsep}
use fwknox.Workers.Chain.{
  parent_round-relay, AreServed, all_sent, run_crypto_worker-all_sent, timed, replied,
}
use fwknox.Workers.Child.{aborted, hooked_crypto_worker}
use fwknox.Workers.Contained.{hooked_crypto_worker-aborts}
use fwknox.Workers.FailClosed.{
  parent_rounds, serving, run_privsep-fails_closed, parent_round-IsStore,
}
use fwknox.Workers.Sample.{capture_codec, capture_codec-IsCodec, crypto_codec, crypto_codec-IsCodec}

abbrev message : CaptureMsg
message = record { source_ip = client.source_ip; datagram = client.datagram }

-- What the two workers send for it.
abbrev forwarded : Bytes
forwarded = 0 ∷ 4 ∷ 192 ∷ 168 ∷ 1 ∷ 5 ∷ client.datagram

abbrev verdict : Bytes
verdict = 1 ∷ 192 ∷ 168 ∷ 1 ∷ 5 ∷ []

forwarded_message : send_msg capture_codec none message ≡ ok forwarded
unfolding send_msg sent_or
forwarded_message = refl

read_back : recv_msg capture_codec (delivered forwarded) ≡ ok message
read_back = recv_msg-send_msg capture_codec none message capture_codec-IsCodec forwarded_message

abbrev capture_turn : CaptureTurn
capture_turn = record {
  read = received client.source_ip client.datagram;
  limiter_now = 5;
  limiter_poisoned = false;
  send_call = none;
}

abbrev crypto_turn : CryptoTurn
crypto_turn = record {
  recv = delivered forwarded;
  validating = moment;
  panics = false;
  send_call = none;
}

abbrev parent_turn : ParentTurn
parent_turn = record {
  signalled = false;
  recv = delivered verdict;
  handling = moment;
  worker_died = false;
  pruning = moment;
}

limits : Unit {0}
unfolding check check_inner lock_recovering check_locked serve_global count_candidate
    admit_candidate promote with_clock new_bucket consume refill lookup
limits = tt

validation : Unit {0}
unfolding Header.encode Header.new Header.decode Header.flags_from_raw derive aead_open hmac_check
    Payload.decode Payload.validate_structure derive_flags check_flags_match_payload open_signed
    parse_packet try_stanza match_packet take_match_msg find_stanza validate_against_clock sub_i64
    now_unix age_limit take_access_msg check_ports_msg matches validate_capture_msg
validation = tt

replied_verdict :
    send_msg crypto_codec none (validate_capture_msg host moment message config) ≡ ok verdict
unfolding send_msg sent_or validation
replied_verdict = refl

forwards :
    (capture_step capture_codec numbers list_lru capture_turn
      (received client.source_ip client.datagram)
      limiter).1
    ≡ sent forwarded
unfolding capture_step on_limit step_of send_msg sent_or limits
forwards = refl

replies : crypto_step host config capture_codec crypto_codec crypto_turn ≡ sent verdict
unfolding crypto_step on_message reply step_of send_msg sent_or recv_msg validation
replies = refl

abbrev served : Serving host config crypto_codec
served = serving host config crypto_codec started

parent_round-relay_example :
    ((check numbers list_lru false 5 client.source_ip limiter).1 ≡ pass)
    × ((parent_round host config crypto_codec parent_turn served).core
        ≡ prune_on_tick host config (next_tick 0) moment (
            handle_crypto_msg host moment
              (validate_capture_msg host moment
                (record {
                  source_ip = client.source_ip;
                  datagram = take capture_buffer client.datagram;
                })
                config)
              config
              started))
parent_round-relay_example =
    parent_round-relay host config capture_codec crypto_codec capture_turn crypto_turn parent_turn
      client.source_ip client.datagram limiter served capture_codec-IsCodec crypto_codec-IsCodec
      forwards refl replies refl

-- A timeout, and a packet twice.
abbrev crypto_turns : List CryptoTurn
crypto_turns = record crypto_turn { recv = io_failed timed_out } ∷ crypto_turn ∷ crypto_turn ∷ []

abbrev crypto_turns-AreServed : AreServed host config capture_codec crypto_codec crypto_turns
crypto_turns-AreServed = (
  timed refl,
  (
    replied message verdict read_back refl replied_verdict,
    (replied message verdict read_back refl replied_verdict, tt),
  ),
)

run_crypto_worker-all_sent_example :
    run_crypto_worker host config capture_codec crypto_codec
      (map go crypto_turns ++ (shut_down ∷ []))
    ≡ (
      all_sent host config capture_codec crypto_codec crypto_turns crypto_turns-AreServed,
      returned (ok tt),
    )
run_crypto_worker-all_sent_example =
    run_crypto_worker-all_sent host config capture_codec crypto_codec crypto_turns
      crypto_turns-AreServed

abbrev last_turn : ParentTurn
last_turn = record parent_turn { worker_died = true }

started_well : start host config started ≡ (started, ok tt)
unfolding start flush_if mock_flush mock_init
started_well = refl

run_privsep-fails_closed_example :
    run_privsep host config crypto_codec true
      (parent_turn ∷ last_turn ∷ parent_turn ∷ [])
      later
      started
    ≡ some (
      finish host config later
          (parent_round host config crypto_codec last_turn
            (parent_rounds host config crypto_codec (parent_turn ∷ []) served)).core,
      ok tt,
    )
run_privsep-fails_closed_example =
    run_privsep-fails_closed host config crypto_codec (parent_turn ∷ []) last_turn
      (parent_turn ∷ []) later started started started_well refl refl refl

parent_round-IsStore_example :
    IsStore list_lru-IsLru (parent_round host config crypto_codec parent_turn served).core.replay
parent_round-IsStore_example =
    parent_round-IsStore host list_lru-IsLru config crypto_codec parent_turn served started-IsStore

abbrev calm_turns : List CryptoTurn
calm_turns = record crypto_turn { recv = io_failed timed_out } ∷ crypto_turn ∷ []

abbrev calm_turns-AreServed : AreServed host config capture_codec crypto_codec calm_turns
calm_turns-AreServed = (timed refl, (replied message verdict read_back refl replied_verdict, tt))

hooked_crypto_worker-aborts_example :
    hooked_crypto_worker host config capture_codec crypto_codec
      (map go calm_turns ++ (go (record crypto_turn { panics = true }) ∷ []))
    ≡ (all_sent host config capture_codec crypto_codec calm_turns calm_turns-AreServed, aborted)
hooked_crypto_worker-aborts_example =
    hooked_crypto_worker-aborts host config capture_codec crypto_codec calm_turns
      calm_turns-AreServed (record crypto_turn { panics = true }) [] refl read_back refl
