-- ===== src/TcpReassembly/Walks.antt =====
-- The framers' loop of src/payload_describer.cpp and walkMessages of src/tcp_reassembly.cpp: where the
-- walk over a run of bytes ends.
use log_squirl_tcpdump.Common.{
  ℕ, zero, suc, ◌+◌, ◌-◌, ◌≤◌, ◌<◌, List, [], ◌∷◌, Option, some, true, false, not, ◌&&◌, ltb, ◌==◌,
  ◌≡◌, refl, sym, ◌∙◌, inl, inr, Bool-cases, Option-cases, if_both, ltb→lt, ltb→le, length, drop,
  length-drop, All, arith,
}
use log_squirl_tcpdump.PacketRecord.{PacketRecord}
use log_squirl_tcpdump.TcpReassembly.{StreamState, FramerLook, no_look}
use log_squirl_tcpdump.TcpReassembly.Messages.{
  Payload, Framer, Describer, MessageExtent, extent_from, tcp_message_extent, Walk, walk_loop,
  walk_messages,
}
use log_squirl_tcpdump.TcpReassembly.Sound.{Gives, given}

-- A framer's message takes some bytes.
abbrev pub Frames : Framer → Type 0
Frames f = (p : Payload) (n : ℕ) → (f.frame p).0 ≡ some n → 0 < n

-- A message that is framed takes some bytes, and goes on past those given if it takes more.
pub record IsExtent (bytes : List ℕ) (extent : MessageExtent) : Type 0 where
  pub told :
      (extent.framer == 0) ≡ false
      → (0 < extent.extent_length) × (extent.needs_more ≡ ltb (length bytes) extent.extent_length)

extent_from-IsExtent :
    (web_socket framer number : ℕ) (p : Payload) (look : FramerLook) (fs : List Framer)
    → All Frames fs
    → IsExtent p.bytes (extent_from web_socket framer number p look fs).0
unfolding extent_from
extent_from-IsExtent web_socket framer number p look [] h = record { told = λ n. absurd cc }
extent_from-IsExtent web_socket framer number p look (f ∷ fs) h =
    let p' : Payload = record p { continuing = framer == number } in
    let rest = λ (l : FramerLook). extent_from-IsExtent web_socket framer (suc number) p l fs h.1 in
    if_both (λ (x : MessageExtent × FramerLook). IsExtent p.bytes x.0)
      (not (framer == 0) && not (framer == number)) (rest _)
      (elim (Option-cases (f.frame p').0) [
        | inl nothing ↦ rw nothing (rest _)
        | inr (n, told) ↦ rw told (record { told = λ m. (h.0 p' n told, refl) })
      ])

pub tcp_message_extent-IsExtent :
    (d : Describer) (bytes : List ℕ) (pkt : PacketRecord) (framer : ℕ) (state : Option StreamState)
    (look : FramerLook)
    → All Frames d.framers
    → IsExtent bytes (tcp_message_extent d bytes pkt framer state look).0
unfolding tcp_message_extent
tcp_message_extent-IsExtent d bytes pkt framer state look h =
    extent_from-IsExtent d.web_socket_framer framer 1 _ look d.framers h

-- The walk ends in the bytes; at their end, unless a message goes on past them.
pub record IsWalked (bytes : List ℕ) (w : Walk × FramerLook) : Type 0 where
  pub inside : w.0.walk_end ≤ length bytes
  pub ended : (w.0.incomplete.framer == 0) ≡ true → w.0.walk_end ≡ length bytes
  pub goes_on :
      (w.0.incomplete.framer == 0) ≡ false
      → length bytes - w.0.walk_end < w.0.incomplete.extent_length

module _ (d : Describer) (framing : All Frames d.framers) (pkt : PacketRecord) where
  walk_loop-IsWalked :
      (fuel : ℕ) (bytes : List ℕ) (state : Option StreamState) (framer : ℕ) (look : FramerLook)
      (walk : Walk)
      → length bytes < walk.walk_end + fuel
      → walk.walk_end ≤ length bytes
      → (walk.incomplete.framer == 0) ≡ true
      → Gives (IsWalked bytes) (walk_loop fuel d bytes pkt state framer look walk)
  unfolding walk_loop
  walk_loop-IsWalked zero bytes state framer look walk l k z = absurd (omega (arith, l, k))
  walk_loop-IsWalked (suc fuel) bytes state framer look walk l k z =
      elim (Bool-cases (ltb walk.walk_end (length bytes))) [
        | inr over ↦
            let past = ltb→le walk.walk_end (length bytes) over in
            rw (walk_loop, over)
              (given (record {
                inside = k;
                ended = λ e. omega (arith, past, k);
                goes_on = λ e. absurd cc;
              }))
        | inl more ↦
            let found = tcp_message_extent d (drop walk.walk_end bytes) pkt framer state look in
            let is =
              tcp_message_extent-IsExtent d (drop walk.walk_end bytes) pkt framer state look
                framing in
            let size = length-drop walk.walk_end bytes in
            elim (Bool-cases (found.0.framer == 0)) [
              | inl unframed ↦
                  rw (walk_loop, more, unframed)
                    (given (record {
                      inside = omega arith;
                      ended = λ e. refl;
                      goes_on = λ e. absurd cc;
                    }))
              | inr framed ↦
                  let (some_bytes, needs) = is.told framed in
                  elim (Bool-cases found.0.needs_more) [
                    | inl needed ↦
                        let longer = ltb→lt _ _ (sym needs ∙ needed) in
                        rw (walk_loop, more, framed, needed)
                          (given (record {
                            inside = k;
                            ended = λ e. absurd cc;
                            goes_on = λ e. omega (arith, longer, size);
                          }))
                    | inr complete ↦
                        let shorter = ltb→le _ _ (sym needs ∙ complete) in
                        let before = ltb→lt _ _ more in
                        rw (walk_loop, more, framed, complete)
                          (walk_loop-IsWalked fuel bytes state _ no_look _
                            (omega (arith, l, some_bytes)) (omega (arith, shorter, size, before)) z)
                  ]
            ]
      ]

  -- Where each framer's message takes some bytes, walkMessages ends, inside the bytes: at their
  -- end if no message is incomplete, else before a message that is longer than the bytes after
  -- it.
  pub walk_messages-IsWalked :
      (bytes : List ℕ) (state : Option StreamState) (framer : ℕ) (look : FramerLook)
      → Gives (IsWalked bytes) (walk_messages d bytes pkt state framer look)
  unfolding walk_messages
  walk_messages-IsWalked bytes state framer look =
      walk_loop-IsWalked (suc (length bytes)) bytes state framer look _ (omega arith) (omega arith)
        refl
