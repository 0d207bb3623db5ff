-- ===== src/Examples/Orderer.antt =====
-- A direction of a stream at position 5, with segments held behind it.
use log_squirl_tcpdump.Common.{ℕ, ◌%◌, refl, [], ◌∷◌, arith}
use log_squirl_tcpdump.ByteStreamOrderer.{EarlySegment, ByteStreamOrderer, pop_next, bytes_of}
use log_squirl_tcpdump.ByteStreamOrderer.Positions.{Follows, Waits}
use log_squirl_tcpdump.ByteStreamOrderer.Left.{Pops, pop_next-Pops}

abbrev counting : ℕ → ℕ
counting n = n % 256

abbrev held_seven : EarlySegment
held_seven = record { seq = 7; bytes = 7 ∷ 8 ∷ [] }

abbrev held_four : EarlySegment
held_four = record { seq = 4; bytes = 4 ∷ 5 ∷ 6 ∷ [] }

abbrev waiting_order : ByteStreamOrderer
waiting_order = record { next_seq = 5; early_segments = held_seven ∷ [] }

abbrev ready_order : ByteStreamOrderer
ready_order = record { next_seq = 5; early_segments = held_seven ∷ held_four ∷ [] }

waiting_order-Waits : Waits counting 5 waiting_order
waiting_order-Waits = record {
  at_p = refl;
  held = ((7, refl, (refl, (refl, tt)), omega arith, omega arith), tt);
}

ready_order-Follows : Follows counting 5 ready_order
unfolding bytes_of
ready_order-Follows = record {
  at_p = refl;
  held = (
    (7, refl, (refl, (refl, tt)), omega arith, omega arith),
    ((4, refl, (refl, (refl, (refl, tt))), omega arith, omega arith), tt),
  );
}

pop_next-Pops_example : Pops counting 5 ready_order (pop_next ready_order)
pop_next-Pops_example = pop_next-Pops counting 5 ready_order ready_order-Follows
