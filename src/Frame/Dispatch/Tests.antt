-- ===== src/Frame/Dispatch/Tests.antt =====
-- Payloads at concrete values.
use quic_vibe.Common.{
  ℕ, ◌+◌, ◌≤◌, ◌≡◌, refl, true, false, some, List, [], ◌∷◌, ◌++◌, arith, replicate, All,
}
use quic_vibe.Common.{take}
use quic_vibe.BigEndian.{write_be, read_be}
use quic_vibe.Varint
use quic_vibe.Varint.{len, class_from, put_be, encode, get_be, decode}
use quic_vibe.Frame.Wire.{write_bytes}
use quic_vibe.Frame.Ack.{
  AckFrame, first_range, ack_decode, take_ack_prologue, take_ack_head, take_ack_meta, take_first,
  count_fits, take_ack_rest, take_ack_pairs, take_pair, take_two, pair_fits, take_ack_ecn,
}
use quic_vibe.Frame.Data.{
  StreamFrame, stream_type, put_stream, put_stream_hdr, put_stream_prefix, put_opt_offset,
}
use quic_vibe.Frame.Every.{Frame}
use quic_vibe.Frame.Kinds.{classify, classify_in}
use quic_vibe.Frame.Walk.{next, measure, frame_len, single_byte}
use quic_vibe.Frame.Walk.Items.{Item, IsItem, payload}
use quic_vibe.Frame.Walk.Progress.{next_advances}
use quic_vibe.Recovery.SentPackets.{Entry, PacketState}
use quic_vibe.Recovery.SentPackets.Acknowledge.{ack_all, outstanding, occurrences}
use quic_vibe.Frame.Dispatch.{DispatchState, on_ack, process_ranges, ackrange_process, dispatch_all}
use quic_vibe.Frame.Dispatch.Acked.{in_ranges, on_ack_exact}
use quic_vibe.Frame.Dispatch.Payload.{effects, dispatch_all_refines}
use quic_vibe.Frame.Dispatch.Unmeasured.{unmeasured_ignored}

abbrev sent_packet : ℕ → Entry
sent_packet n = record {
  pn = n;
  time_sent = 0;
  size = 1200;
  ack_eliciting = true;
  state = PacketState.inflight;
  used = true;
}

abbrev state : DispatchState
state = record {
  stream = record {
    r = record {
      buf = replicate 4 0;
      have = replicate 4 false;
      delivered = 0;
      final_size = 0;
      have_final = false;
    };
    read_off = 0;
  };
  sent = sent_packet 7 ∷ sent_packet 9 ∷ [];
  credit = record { consumed = 0; max_data = 0; window = 0 };
  ack_eliciting = false;
  close = false;
  has_ack = false;
  largest_acked = 0;
}

-- Numbers 9 and 8.
abbrev two_acked : AckFrame
two_acked = record {
  ack_delay = 3;
  ranges = (record { hi = 9; lo = 8 }) ∷ [];
  has_ecn = 0;
  ect0 = 0;
  ect1 = 0;
  ce = 0;
}

two_acked_read : ack_decode (0x02 ∷ 9 ∷ 3 ∷ 0 ∷ 1 ∷ []) ≡ some (two_acked, 5)
unfolding ack_decode take_ack_prologue take_ack_head take_ack_meta take_first count_fits
    take_ack_rest take_ack_pairs take_pair take_two pair_fits take_ack_ecn Varint.take decode get_be
    read_be
two_acked_read = refl

on_ack_exact_example :
    let buf : List ℕ = 0x02 ∷ 9 ∷ 3 ∷ 0 ∷ 1 ∷ [] in
    ((on_ack state buf).0.sent ≡ ack_all (in_ranges two_acked.ranges) state.sent)
    × ((on_ack state buf).0.largest_acked ≡ (first_range two_acked).hi)
    × (ackrange_process state.sent buf ≡ some (process_ranges state.sent two_acked.ranges))
    × ((process_ranges state.sent two_acked.ranges).0
        ≡ ack_all (in_ranges two_acked.ranges) state.sent)
    × (occurrences 9 (process_ranges state.sent two_acked.ranges).1
        ≡ outstanding (in_ranges two_acked.ranges) 9 state.sent)
on_ack_exact_example =
    on_ack_exact state 0x02 (9 ∷ 3 ∷ 0 ∷ 1 ∷ []) two_acked 5 9
      (omega arith, (omega arith, (omega arith, (omega arith, tt)))) two_acked_read

abbrev hello : StreamFrame
hello = record { stream_id = 4; offset = 0; payload = 104 ∷ 105 ∷ []; fin = 1 }

abbrev ping_and_hello : List Item
ping_and_hello = Item.ping ∷ Item.frame (Frame.stream hello) ∷ []

ping_and_hello-payload : payload 1200 ping_and_hello ≡ some (1 ∷ 0x0b ∷ 4 ∷ 2 ∷ 104 ∷ 105 ∷ [])
unfolding put_stream put_stream_hdr put_stream_prefix put_opt_offset stream_type write_bytes
    Varint.put encode len class_from put_be write_be
ping_and_hello-payload = refl

ping_and_hello-IsItem : All (IsItem 1200) ping_and_hello
unfolding encode len class_from put_be write_be stream_type
ping_and_hello-IsItem = ground arith

dispatch_all_refines_example :
    dispatch_all 4 state (1 ∷ 0x0b ∷ 4 ∷ 2 ∷ 104 ∷ 105 ∷ []) ≡ effects 4 state ping_and_hello
dispatch_all_refines_example =
    dispatch_all_refines 4 1200 state ping_and_hello (1 ∷ 0x0b ∷ 4 ∷ 2 ∷ 104 ∷ 105 ∷ [])
      ping_and_hello-IsItem ping_and_hello-payload

max_data_first : decode (0x10 ∷ 5 ∷ 1 ∷ []) ≡ some (0x10, 1)
unfolding decode get_be read_be
max_data_first = refl

unmeasured_ignored_example : dispatch_all 4 state (0x10 ∷ 5 ∷ 1 ∷ []) ≡ (state, true)
unfolding classify
unmeasured_ignored_example =
    unmeasured_ignored 4 state (0x10 ∷ 5 ∷ 1 ∷ []) 0x10 1 max_data_first refl

ping_next : next (1 ∷ 0 ∷ []) ≡ some (1, 1 ∷ 0 ∷ [], 0 ∷ [])
unfolding next measure frame_len single_byte classify classify_in decode get_be read_be
ping_next = refl

next_advances_example :
    let it : List ℕ = 1 ∷ 0 ∷ [] in
    (it ≡ it)
    × (1 ≡ (measure it).0)
    × (1 ≤ (measure it).1)
    × ((measure it).1 ≤ 2)
    × (1 + (measure it).1 ≡ 2)
    × (take (measure it).1 it ++ (0 ∷ []) ≡ it)
next_advances_example = next_advances (1 ∷ 0 ∷ []) (1 ∷ 0 ∷ []) (0 ∷ []) 1 ping_next
