-- ===== src/ByteStreamOrderer/Positions.antt =====
-- Sequence numbers against the positions of an unbounded stream of bytes, which they give modulo
-- 2 ^ 32: the specification that the orderer is proved against.
use log_squirl_tcpdump.Common.{
  ℕ, zero, suc, ◌+◌, ◌-◌, ◌^◌, ◌%◌, ◌≤◌, ◌<◌, ◌≡◌, ◌⊎◌, subst, List, [], ◌∷◌, All, arith, drop,
}
use native.Mathlib.Nat.{add-zero}
use log_squirl_tcpdump.Common.Int.{pos_part, neg_part}
use log_squirl_tcpdump.ByteStreamOrderer.{EarlySegment, ByteStreamOrderer, seq_after, bytes_of}

-- `bytes` are those of the stream `S` from position `a` on.
abbrev pub Agrees : (ℕ → ℕ) → ℕ → List ℕ → Type 0
Agrees S a [] = Unit {0}
Agrees S a (b ∷ bs) = (b ≡ S a) × Agrees S (suc a) bs

suc_shift : (a k : ℕ) → suc a + k ≡ a + suc k
suc_shift a k = omega arith

pub Agrees-drop : (S : ℕ → ℕ) (k a : ℕ) (bs : List ℕ) → Agrees S a bs → Agrees S (a + k) (drop k bs)
Agrees-drop S zero a bs h = rw (add-zero a) h
Agrees-drop S (suc k) a [] h = tt
Agrees-drop S (suc k) a (b ∷ bs) h =
    subst (λ (n : ℕ). Agrees S n (drop k bs)) (suc_shift a k) (Agrees-drop S k (suc a) bs h.1)

-- Less than half of the sequence space apart.
abbrev pub IsNear : ℕ → ℕ → Type 0
IsNear a p = (p ≤ a + 2 ^ 31) × (a < p + 2 ^ 31)

pub seq_after_parts :
    (a p : ℕ)
    → IsNear a p
    → let z = seq_after (a % 2 ^ 32) (p % 2 ^ 32) in (pos_part z ≡ a - p) × (neg_part z ≡ p - a)
unfolding seq_after
seq_after_parts a p h = ground arith

-- A held segment lies at a position of the stream, at most half of the sequence space before `hi`,
-- and less than the largest TCP window (2 ^ 30, RFC 7323) behind `p`.
abbrev pub Held : (ℕ → ℕ) → ℕ → ℕ → EarlySegment → Type 0
Held S p hi s =
    (a : ℕ) × (s.seq ≡ a % 2 ^ 32) × Agrees S a s.bytes × (hi ≤ a + 2 ^ 31) × (a < p + 2 ^ 30)

-- It begins after `p`.
abbrev pub Waiting : (ℕ → ℕ) → ℕ → EarlySegment → Type 0
Waiting S p s = (a : ℕ) × (s.seq ≡ a % 2 ^ 32) × Agrees S a s.bytes × (p < a) × (a < p + 2 ^ 30)

-- Some held segment begins at `f`.
abbrev pub HasSeq : ℕ → List EarlySegment → Type 0
HasSeq f [] = ⊥
HasSeq f (s ∷ rest) = (s.seq ≡ f) ⊎ HasSeq f rest

-- The orderer has taken the stream up to `p`, and holds pieces of it; taking all of them would not
-- move `p` half of the sequence space past any.
pub record Follows (S : ℕ → ℕ) (p : ℕ) (o : ByteStreamOrderer) : Type 0 where
  pub at_p : o.next_seq ≡ p % 2 ^ 32
  pub held : All (Held S p (p + bytes_of o.early_segments)) o.early_segments

-- Nothing that is held is next.
pub record Waits (S : ℕ → ℕ) (p : ℕ) (o : ByteStreamOrderer) : Type 0 where
  pub at_p : o.next_seq ≡ p % 2 ^ 32
  pub held : All (Waiting S p) o.early_segments

pub advance_next : (p n : ℕ) → (p % 2 ^ 32 + n % 2 ^ 32) % 2 ^ 32 ≡ (p + n) % 2 ^ 32
advance_next p n = omega arith

pub seq_after_self : (f : ℕ) → f < 2 ^ 32 → pos_part (seq_after f f) ≡ 0
unfolding seq_after
seq_after_self f h = ground arith
