-- ===== src/StreamContent/Faithful.antt =====
-- What the chunks handed out say of the streams they were read from: the specification.
use log_squirl_tcpdump.Common.{
  ℕ, ◌+◌, ◌≤◌, ◌≡◌, refl, ◌≢◌, List, [], ◌∷◌, ◌++◌, arith, length, ◌==◌, if◌then◌else◌,
}
use log_squirl_tcpdump.ByteStreamOrderer.{bytes_of}
use log_squirl_tcpdump.ByteStreamOrderer.Positions.{Agrees, Follows, Waits}
use log_squirl_tcpdump.StreamContent.{StreamChunk, chunk_of, Flow, max_early_bytes}

-- The part of a chunk that is direction `d`'s.
abbrev pub own : ℕ → StreamChunk → List ℕ
own d c = if d == c.direction then c.bytes else []

abbrev pub gap : ℕ → StreamChunk → ℕ
gap d c = if d == c.direction then c.missing else 0

-- The position behind chunks that begin at `p`.
unfoldable pub end_of : ℕ → ℕ → List StreamChunk → ℕ
end_of d p [] = p
end_of d p (c ∷ cs) = end_of d (p + gap d c + length (own d c)) cs

-- Every byte that direction `d`'s chunks show is the stream's at its position, gaps counted.
unfoldable pub Faithful : (ℕ → ℕ) → ℕ → ℕ → List StreamChunk → Type 0
Faithful S d p [] = Unit {0}
Faithful S d p (c ∷ cs) =
    Agrees S (p + gap d c) (own d c) × Faithful S d (p + gap d c + length (own d c)) cs

pub end_of-snoc :
    (d p : ℕ) (cs : List StreamChunk) (c : StreamChunk)
    → end_of d p (cs ++ (c ∷ [])) ≡ end_of d p cs + gap d c + length (own d c)
unfolding end_of
end_of-snoc d p [] c = refl
end_of-snoc d p (x ∷ cs) c = end_of-snoc d (p + gap d x + length (own d x)) cs c

pub Faithful-snoc :
    (S : ℕ → ℕ) (d p : ℕ) (cs : List StreamChunk) (c : StreamChunk)
    → Faithful S d p cs
    → Agrees S (end_of d p cs + gap d c) (own d c)
    → Faithful S d p (cs ++ (c ∷ []))
unfolding end_of Faithful
Faithful-snoc S d p [] c h k = (k, tt)
Faithful-snoc S d p (x ∷ cs) c h k =
    (h.0, Faithful-snoc S d (p + gap d x + length (own d x)) cs c h.1 k)

own_self : (d packet missing : ℕ) (bytes : List ℕ) → own d (chunk_of d packet missing bytes) ≡ bytes
own_self d packet missing bytes = ground arith

gap_self :
    (d packet missing : ℕ) (bytes : List ℕ) → gap d (chunk_of d packet missing bytes) ≡ missing
gap_self d packet missing bytes = ground arith

own_other :
    (d e packet missing : ℕ) (bytes : List ℕ) → d ≢ e → own e (chunk_of d packet missing bytes) ≡ []
own_other d e packet missing bytes h = ground arith

gap_other :
    (d e packet missing : ℕ) (bytes : List ℕ) → d ≢ e → gap e (chunk_of d packet missing bytes) ≡ 0
gap_other d e packet missing bytes h = ground arith

-- The chunks show stream `S` as direction `d` from position `start` on, and stream `T` as direction
-- `e` from `other_start` up to `other_end`.
pub record Shown (S : ℕ → ℕ) (d start : ℕ) (T : ℕ → ℕ) (e other_start other_end : ℕ)
    (cs : List StreamChunk) : Type 0 where
  pub faithful : Faithful S d start cs
  pub bystander : Faithful T e other_start cs
  pub bystander_end : end_of e other_start cs ≡ other_end

module _ (S : ℕ → ℕ) (d start : ℕ) (T : ℕ → ℕ) (e other_start other_end : ℕ) where
  -- A flow of direction `d` that has handed out stream `S` so far, and holds pieces of the rest.
  pub record Following (f : Flow) : Type 0 where
    pub at_end : Follows S (end_of d start f.chunks) f.side.order
    pub few : bytes_of f.side.order.early_segments ≤ max_early_bytes
    pub shown : Shown S d start T e other_start other_end f.chunks

  -- Nothing of what it holds is next.
  pub record Reads (f : Flow) : Type 0 where
    pub at_end : Waits S (end_of d start f.chunks) f.side.order
    pub few : bytes_of f.side.order.early_segments ≤ max_early_bytes
    pub shown : Shown S d start T e other_start other_end f.chunks

  pub chunk-end :
      (packet missing : ℕ) (bytes : List ℕ) (cs : List StreamChunk)
      → end_of d start (cs ++ (chunk_of d packet missing bytes ∷ []))
        ≡ end_of d start cs + missing + length bytes
  chunk-end packet missing bytes cs =
      rw (end_of-snoc, own_self d packet missing bytes, gap_self d packet missing bytes) refl

  -- A chunk of direction `d` that shows what comes next, behind what is missing.
  pub chunk-Shown :
      (packet missing : ℕ) (bytes : List ℕ) (cs : List StreamChunk)
      → d ≢ e
      → Shown S d start T e other_start other_end cs
      → Agrees S (end_of d start cs + missing) bytes
      → Shown S d start T e other_start other_end (cs ++ (chunk_of d packet missing bytes ∷ []))
  chunk-Shown packet missing bytes cs apart h agrees = record {
    faithful =
        Faithful-snoc S d start cs _ h.faithful
          (rw (own_self d packet missing bytes, gap_self d packet missing bytes) agrees);
    bystander =
        Faithful-snoc T e other_start cs _ h.bystander
          (rw (own_other d e packet missing bytes apart) tt);
    bystander_end =
        rw
          (
            end_of-snoc,
            own_other d e packet missing bytes apart,
            gap_other d e packet missing bytes apart,
          )
          (omega (arith, h.bystander_end));
  }
