-- ===== src/TcpReassembly/Takes.antt =====
-- src/tcp_reassembly.cpp: the bytes of a stream that appending the early segments takes
-- (appendEarly).
use native.Mathlib.Nat.{add-zero}
use log_squirl_tcpdump.Common.{
  ℕ, suc, ◌+◌, ◌^◌, ◌≤◌, ◌<◌, List, [], ◌∷◌, ◌++◌, none, some, ltb, ◌≡◌, ◌⊎◌, sym, subst, inl, inr,
  Bool-cases, ltb→lt, ltb→le, length, length-append, arith,
}
use log_squirl_tcpdump.ByteStreamOrderer.{ByteStreamOrderer, advance, bytes_of, pop_next}
use log_squirl_tcpdump.ByteStreamOrderer.Positions.{Agrees, Follows, Waits}
use log_squirl_tcpdump.ByteStreamOrderer.Pop.{pop_next-Popped, Popped-none, Popped-some}
use log_squirl_tcpdump.ByteStreamOrderer.Left.{SomeHasByte, SomeHasByte-later, pop_next-GivenOrHeld}

-- Of a stream that `o` has taken up to `p`, the bytes from there on are taken, and no held one lost;
-- then nothing that is held is next.
pub record Takes (S : ℕ → ℕ) (p : ℕ) (o : ByteStreamOrderer) (more : List ℕ)
    (o' : ByteStreamOrderer) : Type 0 where
  pub agrees : Agrees S p more
  pub waits : Waits S (p + length more) o'
  pub kept :
      (n : ℕ)
      → p ≤ n
      → SomeHasByte p n o.early_segments
      → (n < p + length more) ⊎ SomeHasByte (p + length more) n o'.early_segments

Agrees-append :
    (S : ℕ → ℕ) (p : ℕ) (xs ys : List ℕ)
    → Agrees S p xs
    → Agrees S (p + length xs) ys
    → Agrees S p (xs ++ ys)
Agrees-append S p [] ys h k = subst (λ q. Agrees S q ys) (add-zero p) k
Agrees-append S p (x ∷ xs) ys h k =
    let next : p + suc (length xs) ≡ suc p + length xs = omega arith in
    (h.0, Agrees-append S (suc p) xs ys h.1 (subst (λ q. Agrees S q ys) next k))

pub Takes-nothing :
    (S : ℕ → ℕ) (p : ℕ) (o : ByteStreamOrderer)
    → Follows S p o
    → (pop_next o).0 ≡ none
    → Takes S p o [] (pop_next o).1
Takes-nothing S p o follows nothing =
    let same : p + 0 ≡ p = add-zero p in
    record {
      agrees = tt;
      waits =
          subst (λ q. Waits S q (pop_next o).1) (sym same)
            (Popped-none S p o (pop_next o) nothing (pop_next-Popped S p o follows)).0;
      kept = λ n l b. elim (rw nothing at (pop_next-GivenOrHeld p n o follows.at_p l b)) [
        | inl given_one ↦ inl given_one
        | inr left ↦
            inr (subst (λ q. SomeHasByte q n (pop_next o).1.early_segments) (sym same) left)
      ];
    }

-- A pop that gives bytes, and what is taken then.
pub Takes-more :
    (S : ℕ → ℕ) (p : ℕ) (o : ByteStreamOrderer) (bytes more : List ℕ) (o' : ByteStreamOrderer)
    → Follows S p o
    → bytes_of o.early_segments ≤ 2 ^ 31
    → (pop_next o).0 ≡ some bytes
    → Takes S (p + length bytes) (advance (pop_next o).1 (length bytes)) more o'
    → Takes S p o (bytes ++ more) o'
unfolding advance
Takes-more S p o bytes more o' follows few next later =
    let (some_bytes, agrees, follows', count, size) =
      Popped-some S p o (pop_next o) bytes next (pop_next-Popped S p o follows) in
    let all : p + length bytes + length more ≡ p + length (bytes ++ more) =
      omega (arith, length-append bytes more) in
    record {
      agrees = Agrees-append S p bytes more agrees later.agrees;
      waits = subst (λ q. Waits S q o') all later.waits;
      kept = λ n l b. elim (Bool-cases (ltb n (p + length bytes))) [
        | inl within ↦ inl (omega (arith, all, ltb→lt _ _ within))
        | inr behind ↦ elim (rw next at (pop_next-GivenOrHeld p n o follows.at_p l b)) [
          | inl given_one ↦ absurd (omega (arith, ltb→le _ _ behind))
          | inr left ↦
              elim (later.kept n (ltb→le _ _ behind) (
                SomeHasByte-later p _ n (pop_next o).1.early_segments (omega arith)
                  (ltb→le _ _ behind) (omega (arith, few, size)) left)) [
                    | inl taken ↦ inl (omega (arith, all, taken))
                    | inr held ↦ inr (subst (λ q. SomeHasByte q n o'.early_segments) all held)
                  ]
        ]
      ];
    }
