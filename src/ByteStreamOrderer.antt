-- ===== src/ByteStreamOrderer.antt =====
-- src/byte_stream_orderer.h and src/byte_stream_orderer.cpp: the segments of one direction of a TCP
-- stream in sequence order. A sequence number is a natural number below 2 ^ 32, a byte vector a list
-- of numbers; sizes do not wrap.
pub mod Positions
pub mod Pop
pub mod First
pub mod Shrinks
pub mod Left
use log_squirl_tcpdump.Common.{
  ℕ, zero, suc, ◌+◌, ◌-◌, ◌^◌, ◌%◌, List, [], ◌∷◌, ◌++◌, Option, none, some, Bool, true, false,
  ◌&&◌, ltb, leb, ◌==◌, if◌then◌else◌, length, drop, ◌≡◌, refl, arith,
}
use log_squirl_tcpdump.Common.Int.{ℤ, pos_part, neg_part, to_signed, is_pos, is_neg}
use mathlib.Core.Option

-- `static_cast<int32_t>( a - b )`
unfoldable pub seq_after : ℕ → ℕ → ℤ
seq_after a b = to_signed 32 ((a + 2 ^ 32 - b) % 2 ^ 32)

pub record EarlySegment : Type 0 where
  pub seq : ℕ
  pub bytes : List ℕ

pub data Fit : Type 0 where
  next early taken : Fit

pub record Place : Type 0 where
  pub fit : Fit
  pub overlap : ℕ

pub record ByteStreamOrderer : Type 0 where
  pub next_seq : ℕ
  pub early_segments : List EarlySegment

unfoldable pub reset : ByteStreamOrderer → ℕ → ByteStreamOrderer
reset o seq = record { next_seq = seq; early_segments = [] }

-- `ahead + len <= 0` of a negative `ahead` is `len <= -ahead`.
unfoldable pub place : ByteStreamOrderer → ℕ → ℕ → Place
place o seq len =
    let ahead = seq_after seq o.next_seq in
    if is_pos ahead
    then record { fit = early; overlap = 0 }
    else if leb len (neg_part ahead)
    then record { fit = taken; overlap = 0 }
    else record { fit = next; overlap = neg_part ahead }

unfoldable pub advance : ByteStreamOrderer → ℕ → ByteStreamOrderer
advance o len = record o { next_seq = (o.next_seq + len % 2 ^ 32) % 2 ^ 32 }

holds_in : List EarlySegment → ℕ → ℕ → Bool
holds_in [] seq len = false
holds_in (s ∷ rest) seq len =
    if (s.seq == seq) && leb len (length s.bytes) then true else holds_in rest seq len

unfoldable pub holds : ByteStreamOrderer → ℕ → ℕ → Bool
unfolding holds_in
holds o seq len = holds_in o.early_segments seq len

unfoldable pub hold_early : ByteStreamOrderer → ℕ → List ℕ → ByteStreamOrderer
hold_early o seq bytes = record o {
  early_segments = o.early_segments ++ (record { seq = seq; bytes = bytes } ∷ []);
}

-- The first held segment that does not begin after `now`, and the others: the `continue` and the
-- `erase` of popNext's loop.
unfoldable pub take_ready : ℕ → List EarlySegment → Option (EarlySegment × List EarlySegment)
take_ready now [] = none
take_ready now (s ∷ rest) =
    let later = take_ready now rest in
    if is_pos (seq_after s.seq now) then Option.map (λ p. (p.0, s ∷ p.1)) later else some (s, rest)

-- Each round that looks again from the start has erased a segment.
unfoldable pub pop_loop : ℕ → ByteStreamOrderer → Option (List ℕ) × ByteStreamOrderer
pop_loop zero o = (none, o)
pop_loop (suc fuel) o = elim (take_ready o.next_seq o.early_segments) [
  | none ↦ (none, o)
  | some (s, rest) ↦
      let o' : ByteStreamOrderer = record o { early_segments = rest } in
      let overlap = neg_part (seq_after s.seq o.next_seq) in
      let again = pop_loop fuel o' in
      if ltb overlap (length s.bytes) then (some (drop overlap s.bytes), o') else again
]

unfoldable pub pop_next : ByteStreamOrderer → Option (List ℕ) × ByteStreamOrderer
pop_next o = pop_loop (suc (length o.early_segments)) o

first_of_list : Option ℕ → List EarlySegment → Option ℕ
first_of_list first [] = first
first_of_list none (s ∷ rest) = first_of_list (some s.seq) rest
first_of_list (some f) (s ∷ rest) =
    first_of_list (if is_neg (seq_after s.seq f) then some s.seq else some f) rest

pub first_early_seq : ByteStreamOrderer → Option ℕ
first_early_seq o = first_of_list none o.early_segments

-- The new orderer, and how many bytes were skipped.
unfoldable pub skip_to : ByteStreamOrderer → ℕ → ByteStreamOrderer × ℕ
skip_to o seq =
    let ahead = seq_after seq o.next_seq in
    if is_pos ahead then (record o { next_seq = seq }, pos_part ahead) else (o, 0)

unfoldable pub bytes_of : List EarlySegment → ℕ
bytes_of [] = 0
bytes_of (s ∷ rest) = length s.bytes + bytes_of rest

unfoldable pub early_bytes : ByteStreamOrderer → ℕ
early_bytes o = bytes_of o.early_segments

pub early_bytes_lem : (o : ByteStreamOrderer) → early_bytes o ≡ bytes_of o.early_segments
unfolding early_bytes
early_bytes_lem o = refl

pub bytes_of-snoc :
    (xs : List EarlySegment) (s : EarlySegment)
    → bytes_of (xs ++ (s ∷ [])) ≡ bytes_of xs + length s.bytes
unfolding bytes_of
bytes_of-snoc [] s = omega arith
bytes_of-snoc (x ∷ xs) s = omega (arith, bytes_of-snoc xs s)
