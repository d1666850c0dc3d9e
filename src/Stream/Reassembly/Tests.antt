-- ===== src/Stream/Reassembly/Tests.antt =====
-- A short stream that arrives out of order, and the theorems at it.
use quic_vibe.Common.{ℕ, ◌+◌, ◌≡◌, refl, false, List, [], ◌∷◌, arith, length}
use quic_vibe.Stream.Reassembly.{
  StreamRead, reasm_init, read_init, reasm_insert, insert_fits, insert_loop, reasm_set_final,
  reasm_deliver, deliver_loop, push, readable, pull, copy_out,
}
use quic_vibe.Stream.Reassembly.Buffer.{segment}
use quic_vibe.Stream.Reassembly.Reader.{
  Call, arrive, finish, read, run, Read, reads_in_order, pull-Read, read_init-IsReader,
}

-- The byte at offset `i` is `i + 10`.
abbrev counting : ℕ → ℕ
counting i = i + 10

abbrev memory : StreamRead
memory = record {
  r = record {
    buf = 0 ∷ 0 ∷ 0 ∷ 0 ∷ 0 ∷ 0 ∷ [];
    have = [];
    delivered = 0;
    final_size = 0;
    have_final = false;
  };
  read_off = 0;
}

-- The tail first, then the head with an overlap, and reads in between.
abbrev calls : List Call
calls =
    arrive 2 (12 ∷ 13 ∷ [])
    ∷ read 4
    ∷ arrive 0 (10 ∷ 11 ∷ 12 ∷ [])
    ∷ read 3
    ∷ finish 5
    ∷ read 9
    ∷ []

run-calls : (run 6 (read_init 6 memory) calls).1 ≡ 10 ∷ 11 ∷ 12 ∷ 13 ∷ []
unfolding run read_init reasm_init push pull readable reasm_insert insert_fits insert_loop
    reasm_deliver deliver_loop copy_out reasm_set_final
run-calls = refl

reads_in_order_example :
    ((run 6 (read_init 6 memory) calls).1
      ≡ segment counting 0 (length (run 6 (read_init 6 memory) calls).1))
    × ((run 6 (read_init 6 memory) calls).0.read_off ≡ length (run 6 (read_init 6 memory) calls).1)
reads_in_order_example = reads_in_order counting 6 (omega arith) memory calls refl (omega arith)

pull-Read_example :
    Read counting 6
      (omega arith)
      (read_init 6 memory)
      4
      (pull 6 (read_init 6 memory) 4).0
      (pull 6 (read_init 6 memory) 4).1
pull-Read_example =
    pull-Read counting 6 (omega arith) (read_init 6 memory) 4
      (read_init-IsReader counting 6 (omega arith) memory refl).0
