-- ===== src/Conn/Tests.antt =====
-- Connections at concrete values.
use quic_vibe.Common.{◌+◌, ◌≤◌, ◌≡◌, refl, true, false, List, [], ◌∷◌, ◌++◌, arith}
use quic_vibe.Conn.Phase
use quic_vibe.Conn.Close
use quic_vibe.Conn.Path
use quic_vibe.Conn.CidPool
use quic_vibe.Conn.Pmtu
use quic_vibe.Conn.Migrate
use quic_vibe.Conn.RecvPn

abbrev calls : List Phase.Call
calls =
    Phase.Call.request Phase.PnSpace.pn_application
    ∷ Phase.Call.event Phase.ConnEvent.hs_progress
    ∷ Phase.Call.event Phase.ConnEvent.hs_confirmed
    ∷ Phase.Call.request Phase.PnSpace.pn_application
    ∷ Phase.Call.request Phase.PnSpace.pn_application
    ∷ []

numbers-InOrder_example :
    Phase.InOrder Phase.PnSpace.pn_application Phase.conn_init
      (Phase.run Phase.PnSpace.pn_application Phase.conn_init calls)
numbers-InOrder_example =
    Phase.numbers-InOrder calls Phase.PnSpace.pn_application Phase.conn_init
      (unfold Phase.conn_init in omega arith)

abbrev events : List Close.Event
events =
    Close.Event.ticked ∷ Close.Event.received ∷ Close.Event.ticked ∷ Close.Event.closed_here ∷ []

close_ends_example :
    (Close.is_closed (Close.run (Close.close (Close.life_init 9 2)) events).phase ≡ true)
    × (Close.is_closed (Close.run (Close.on_peer_close (Close.life_init 9 2)) events).phase ≡ true)
close_ends_example =
    Close.close_ends (Close.life_init 9 2) events (unfold Close.life_init Close.is_open in refl)
      (omega arith) (unfold Close.life_init in omega arith) (omega arith)

closing : Close.is_open (Close.close (Close.life_init 9 2)).phase ≡ false
unfolding Close.is_open Close.close Close.life_init
closing = refl

abbrev unvalidated : Path.PathState
unvalidated = record {
  challenge = 7;
  bytes_sent = 1200;
  bytes_received = 1000;
  validated = false;
  confirmed = false;
}

abbrev moves : List Path.Call
moves =
    Path.Call.migrate 1
    ∷ Path.Call.challenge 1 77
    ∷ Path.Call.response 1 77
    ∷ Path.Call.migrate 1
    ∷ []

moved : (Path.run Path.path_init moves).active ≡ 1
unfolding Path.run Path.path_init Path.send_challenge Path.recv_response Path.response_matches
    Path.confirm Path.clear_confirmed
moved = refl

confirmed_is_validated_example : Path.IsSound (Path.run Path.path_init moves)
confirmed_is_validated_example = Path.confirmed_is_validated moves

abbrev pool_calls : List CidPool.Call
pool_calls = CidPool.Call.issue_one ∷ CidPool.Call.issue_one ∷ CidPool.Call.retire 1 ∷ []

pool_within_limit_example :
    (CidPool.active_count (CidPool.run (CidPool.pool_init 2) pool_calls)
        + (CidPool.run (CidPool.pool_init 2) pool_calls).retire_lo
      ≡ (CidPool.run (CidPool.pool_init 2) pool_calls).next_seq)
    × (CidPool.active_count (CidPool.run (CidPool.pool_init 2) pool_calls) ≤ 2)
    × ((CidPool.run (CidPool.pool_init 2) pool_calls).retire_lo
        ≤ (CidPool.run (CidPool.run (CidPool.pool_init 2) pool_calls) pool_calls).retire_lo)
pool_within_limit_example = CidPool.pool_within_limit pool_calls pool_calls 2 (omega arith)

search_ends_example :
    ((Pmtu.search Pmtu.pmtu_init (true ∷ true ∷ false ∷ true ∷ [])).1 ≤ 4)
    × (1200 ≤ (Pmtu.search Pmtu.pmtu_init (true ∷ true ∷ false ∷ true ∷ [])).0.validated)
    × ((Pmtu.search Pmtu.pmtu_init (true ∷ true ∷ false ∷ true ∷ [])).0.validated ≤ 1452)
search_ends_example = Pmtu.search_ends (true ∷ true ∷ false ∷ true ∷ [])

abbrev migration : List Migrate.Event
migration =
    Migrate.Event.handshake_done
    ∷ Migrate.Event.address_changed
    ∷ Migrate.Event.challenge_sent
    ∷ Migrate.Event.path_answered
    ∷ Migrate.Event.switch 8 false
    ∷ []

migration_outcome_example :
    let m = Migrate.run (Migrate.migrate_init 5) migration in
    (m.cur_cid, m.cc_reset) ≡ Migrate.outcome 0 (5, false) migration
migration_outcome_example = Migrate.migration_outcome migration 5

-- The second switch needs no step of its own.
moved_twice :
    Migrate.outcome 0 (5, false) (migration ++ Migrate.Event.switch 9 true ∷ []) ≡ (9, false)
moved_twice = refl

-- 9 is the largest, 8 and 7 were received, 6 was not.
abbrev received : RecvPn.RecvPn
received = record { largest = 9; bitmap = 11; any = true }

two_below : RecvPn.first_range received ≡ 2
unfolding RecvPn.first_range RecvPn.range_loop RecvPn.run_continues RecvPn.bit_at
two_below = refl
