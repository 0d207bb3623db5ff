-- ===== src/StreamContent.antt =====
-- src/stream_content.h and src/stream_content.cpp: the StreamContentReader's ordering of a TCP
-- stream's payload. The sink is the list of the chunks handed out; byte counts do not wrap.
pub mod TakeTcp
pub mod Faithful
pub mod Flows
pub mod Reach
pub mod Shows
pub mod Kept
pub mod Losses
pub mod Remembers
pub mod Segments
pub mod Session
pub mod Rounds
pub mod Connection
pub mod Read
use log_squirl_tcpdump.Common.{
  ℕ, zero, suc, ◌+◌, ◌-◌, ◌*◌, ◌^◌, ◌%◌, min, List, [], ◌∷◌, ◌++◌, Option, none, some, Bool, true,
  false, not, ◌&&◌, ◌||◌, ltb, leb, ◌==◌, if◌then◌else◌, length, drop,
}
use log_squirl_tcpdump.Common.Int.{ℤ, pos_part, is_pos, is_neg}
use log_squirl_tcpdump.PacketRecord.{PacketRecord, tcp_fin, tcp_syn, tcp_ack_flag, has}
use log_squirl_tcpdump.ByteStreamOrderer.{
  ByteStreamOrderer, Fit, next, early, taken, seq_after, reset, place, advance, holds, hold_early,
  pop_next, first_early_seq, skip_to, early_bytes,
}

pub record StreamChunk : Type 0 where
  pub direction : ℕ
  pub packet : ℕ
  pub missing : ℕ
  pub bytes : List ℕ

abbrev pub chunk_of : ℕ → ℕ → ℕ → List ℕ → StreamChunk
chunk_of direction packet missing bytes = record {
  direction = direction;
  packet = packet;
  missing = missing;
  bytes = bytes;
}

-- What the reader keeps of one direction: the elements of its two-element arrays.
pub record Direction : Type 0 where
  pub order : ByteStreamOrderer
  pub started : Bool
  pub fin_seq : Option ℕ
  pub sent_end : Option ℕ
  pub window_shift : Option ℕ
  pub syn_seen : Bool
  pub sent : ℕ

-- One direction, with the output that both share.
pub record Flow : Type 0 where
  pub side : Direction
  pub handed_out : ℕ
  pub chunks : List StreamChunk

pub record Reader : Type 0 where
  pub client : Direction
  pub server : Direction
  pub handed_out : ℕ
  pub chunks : List StreamChunk

abbrev pub max_early_bytes : ℕ
max_early_bytes = 1024 * 1024

abbrev pub max_early_segments : ℕ
max_early_segments = 64

abbrev max_window_shift : ℕ
max_window_shift = 14

-- `order_[ direction ]` and the like: end 0 is the client.
unfoldable pub side_of : Reader → ℕ → Direction
side_of r zero = r.client
side_of r (suc d) = r.server

unfoldable pub with_side : Reader → ℕ → Direction → Reader
with_side r zero x = record r { client = x }
with_side r (suc d) x = record r { server = x }

unfoldable pub flow_of : Reader → ℕ → Flow
unfolding side_of
flow_of r d = record { side = side_of r d; handed_out = r.handed_out; chunks = r.chunks }

unfoldable pub with_flow : Reader → ℕ → Flow → Reader
unfolding with_side
with_flow r d f = record (with_side r d f.side) { handed_out = f.handed_out; chunks = f.chunks }

-- `order` anew.
abbrev pub with_order : Flow → ByteStreamOrderer → Flow
with_order f o = record f { side = record (f.side) { order = o } }

pub emit : ℕ → ℕ → List ℕ → Flow → Flow
emit direction packet bytes f = record {
  side = record (f.side) { sent = f.side.sent + length bytes };
  handed_out = f.handed_out + length bytes;
  chunks = f.chunks ++ (chunk_of direction packet 0 bytes ∷ []);
}

pub hand_out : ℕ → ℕ → List ℕ → Flow → Flow
hand_out direction packet [] f = f
hand_out direction packet (b ∷ bs) f = emit direction packet (b ∷ bs) f

pub hand_out_gap : ℕ → ℕ → ℕ → Flow → Flow
hand_out_gap direction packet missing f = record f {
  chunks = f.chunks ++ (chunk_of direction packet missing [] ∷ []);
}

-- popNext: every round pops a segment that was held.
pop_rounds : ℕ → ℕ → ℕ → Flow → Flow
pop_rounds zero direction packet f = f
pop_rounds (suc fuel) direction packet f =
    let o = f.side.order in
    elim ((pop_next o).0) [
      | none ↦ with_order f (pop_next o).1
      | some bs ↦
          pop_rounds fuel direction packet
            (emit direction packet bs (with_order f (advance (pop_next o).1 (length bs))))
    ]

pub pop_held : ℕ → ℕ → Flow → Flow
pop_held direction packet f =
    pop_rounds (suc (length f.side.order.early_segments)) direction packet f

-- `if ( const auto gap = order.skipTo( seq ) ) handOutGap( direction, packet, gap );`
pub skip_gap : ℕ → ℕ → ℕ → Flow → Flow
skip_gap direction packet seq f =
    let (o, gap) = skip_to f.side.order seq in
    if gap == 0 then with_order f o else hand_out_gap direction packet gap (with_order f o)

-- The loop of skipTo: the held segments before `seq` come after their own gaps.
pub skip_rounds : ℕ → ℕ → ℕ → ℕ → Flow → Flow
skip_rounds zero direction packet seq f = f
skip_rounds (suc fuel) direction packet seq f = elim (first_early_seq f.side.order) [
  | none ↦ f
  | some first ↦
      let rest =
        skip_rounds fuel direction packet seq
          (pop_held direction packet (skip_gap direction packet first f)) in
      if is_neg (seq_after first seq) then rest else f
]

-- A FIN takes a sequence number, and no byte.
unfoldable pub before_fin : Option ℕ → ℕ → ℕ
before_fin none seq = seq
before_fin (some fin) seq = if is_pos (seq_after seq fin) then fin else seq

pub skip_missing : ℕ → ℕ → ℕ → Flow → Flow
skip_missing direction packet ack f =
    let seq = before_fin f.side.fin_seq ack in
    if is_pos (seq_after seq f.side.order.next_seq)
    then pop_held direction packet (
        skip_gap direction packet seq
          (skip_rounds (suc (length f.side.order.early_segments)) direction packet seq f))
    else f

flush_rounds : ℕ → ℕ → ℕ → Flow → Flow
flush_rounds zero direction packet f = f
flush_rounds (suc fuel) direction packet f = elim (first_early_seq f.side.order) [
  | none ↦ f
  | some first ↦
      flush_rounds fuel direction packet
        (pop_held direction packet (skip_gap direction packet first f))
]

pub flush : ℕ → ℕ → Flow → Flow
flush direction packet f =
    flush_rounds (suc (length f.side.order.early_segments)) direction packet f
