-- ===== src/StreamContent/Rounds.antt =====
-- The loop of takeTcp that places a payload ends.
use log_squirl_tcpdump.Common.{
  ℕ, suc, ◌+◌, ◌≤◌, ◌≡◌, ◌≢◌, refl, List, [], arith, ◌⊎◌, inl, inr, false, length, leb, ltb, ◌||◌,
}
use log_squirl_tcpdump.ByteStreamOrderer.{
  ByteStreamOrderer, bytes_of, early_bytes, holds, place, Fit, next, early, taken,
}
use log_squirl_tcpdump.StreamContent.{Flow, max_early_bytes, max_early_segments, flush}
use log_squirl_tcpdump.StreamContent.TakeTcp.{place_rounds}
use log_squirl_tcpdump.StreamContent.Faithful.{Reads}
use log_squirl_tcpdump.StreamContent.Flows.{flush-Reads}

Fit-cases : (x : Fit) → (x ≡ next) ⊎ (x ≡ early) ⊎ (x ≡ taken)
Fit-cases next = inl refl
Fit-cases early = inr (inl refl)
Fit-cases taken = inr (inr refl)

unheld : (o : ByteStreamOrderer) (seq n : ℕ) → o.early_segments ≡ [] → holds o seq n ≡ false
unfolding holds
unheld o seq n empty = rw empty

no_bytes : (o : ByteStreamOrderer) → o.early_segments ≡ [] → early_bytes o ≡ 0
unfolding early_bytes bytes_of
no_bytes o empty = rw empty

within_limits :
    (o : ByteStreamOrderer) (n : ℕ)
    → o.early_segments ≡ []
    → n ≤ max_early_bytes
    → (leb max_early_segments (length o.early_segments) || ltb max_early_bytes (early_bytes o + n))
      ≡ false
within_limits o n empty small = rw empty (ground (arith, no_bytes o empty))

-- With nothing held, one round places a payload within the limit.
place_rounds-empty :
    (k d packet seq : ℕ) (payload : List ℕ) (f : Flow)
    → length payload ≤ max_early_bytes
    → f.side.order.early_segments ≡ []
    → place_rounds (suc k) d packet seq payload f ≡ place_rounds 1 d packet seq payload f
unfolding place_rounds
place_rounds-empty k d packet seq payload f small empty =
    let o = f.side.order in
    let n = length payload in
    elim (Fit-cases (place o seq n).fit) [
      | inl e ↦ rw (e, place_rounds)
      | inr (inl e) ↦
          rw (e, place_rounds) (rw (unheld o seq n empty, within_limits o n empty small))
      | inr (inr e) ↦ rw (e, place_rounds)
    ]

-- Of a direction that shows its stream, and a payload of at most max_early_bytes bytes, any
-- number of rounds from two on places the payload as two rounds do: the loop over `placed` ends
-- in its second round at the latest.
pub place_rounds-enough :
    (S : ℕ → ℕ) (d start : ℕ) (T : ℕ → ℕ) (e other_start other_end k packet seq : ℕ)
    (payload : List ℕ) (f : Flow)
    → d ≢ e
    → length payload ≤ max_early_bytes
    → Reads S d start T e other_start other_end f
    → place_rounds (suc (suc k)) d packet seq payload f ≡ place_rounds 2 d packet seq payload f
unfolding place_rounds
place_rounds-enough S d start T e other_start other_end k packet seq payload f apart small g =
    let o = f.side.order in
    let empty = (flush-Reads S d start T e other_start other_end apart packet f g).1 in
    let again = place_rounds-empty k d packet seq payload (flush d packet f) small empty in
    elim (Fit-cases (place o seq (length payload)).fit) [
      | inl x ↦ rw (x, place_rounds)
      | inr (inl x) ↦ rw (x, place_rounds) (ground (arith, again))
      | inr (inr x) ↦ rw (x, place_rounds)
    ]
