-- ===== src/StreamContent/Shows.antt =====
-- Which bytes of a stream the chunks show, and which the reader still holds: what is known of it.
use log_squirl_tcpdump.Common.{
  ℕ, ◌+◌, ◌^◌, ◌≤◌, ◌<◌, ◌⊎◌, inl, inr, List, [], ◌∷◌, ◌++◌, All, arith, length,
}
use log_squirl_tcpdump.ByteStreamOrderer.{EarlySegment}
use log_squirl_tcpdump.ByteStreamOrderer.First.{From}
use log_squirl_tcpdump.ByteStreamOrderer.Left.{SomeHasByte}
use log_squirl_tcpdump.StreamContent.{StreamChunk, chunk_of, Flow}
use log_squirl_tcpdump.StreamContent.Faithful.{own, gap, end_of}

-- Position `n` is that of a byte of direction `d`, in chunks that begin at `p`.
unfoldable pub ShowsByte : ℕ → ℕ → ℕ → List StreamChunk → Type 0
ShowsByte d p n [] = ⊥
ShowsByte d p n (c ∷ cs) =
    ((p + gap d c ≤ n) × (n < p + gap d c + length (own d c)))
    ⊎ ShowsByte d (p + gap d c + length (own d c)) n cs

pub ShowsByte-before :
    (d p n : ℕ) (cs more : List StreamChunk) → ShowsByte d p n cs → ShowsByte d p n (cs ++ more)
unfolding ShowsByte
ShowsByte-before d p n [] more h = absurd h
ShowsByte-before d p n (c ∷ cs) more (inl h) = inl h
ShowsByte-before d p n (c ∷ cs) more (inr h) =
    inr (ShowsByte-before d (p + gap d c + length (own d c)) n cs more h)

-- The bytes of a chunk that is handed out.
pub ShowsByte-last :
    (d packet p n : ℕ) (bs : List ℕ) (cs : List StreamChunk)
    → end_of d p cs ≤ n
    → n < end_of d p cs + length bs
    → ShowsByte d p n (cs ++ (chunk_of d packet 0 bs ∷ []))
unfolding ShowsByte end_of
ShowsByte-last d packet p n bs [] l u = ground arith
ShowsByte-last d packet p n bs (c ∷ cs) l u =
    inr (ShowsByte-last d packet (p + gap d c + length (own d c)) n bs cs l u)

-- A byte that is shown, or held and not passed.
abbrev pub Known : ℕ → ℕ → ℕ → Flow → Type 0
Known d start n f =
    ShowsByte d start n f.chunks
    ⊎ ((end_of d start f.chunks ≤ n)
        × SomeHasByte (end_of d start f.chunks) n f.side.order.early_segments)

-- Nothing that was known of the direction is lost, nor a byte that was shown of any.
pub record LosesNothing (d start : ℕ) (f f' : Flow) : Type 0 where
  pub known : (n : ℕ) → Known d start n f → Known d start n f'
  pub shown : (e p n : ℕ) → ShowsByte e p n f.chunks → ShowsByte e p n f'.chunks

-- Held segments that begin at or behind `m` have no byte before it.
pub SomeHasByte-From :
    (S : ℕ → ℕ) (p m n : ℕ) (xs : List EarlySegment)
    → All (From S p m) xs
    → SomeHasByte p n xs
    → p ≤ m
    → m < p + 2 ^ 30
    → m ≤ n
SomeHasByte-From S p m n [] h b l u = absurd b
SomeHasByte-From S p m n (s ∷ xs) ((k, at_k, agrees, from, near), h) (inl b) l u =
    let (a, at_a, behind, ahead, begins, ends) = b in omega (arith, at_k, at_a)
SomeHasByte-From S p m n (s ∷ xs) (_, h) (inr b) l u = SomeHasByte-From S p m n xs h b l u
