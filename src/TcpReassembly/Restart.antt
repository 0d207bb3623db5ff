-- ===== src/TcpReassembly/Restart.antt =====
-- src/tcp_reassembly.cpp: a SYN after analyseTcp has forgotten a stream's state, and with it the bits
-- that tell which directions have an entry (src/tcp_analysis.cpp, apply).
use log_squirl_tcpdump.Common.{
  ℕ, zero, suc, ◌+◌, ◌*◌, ◌<◌, none, Bool, true, false, ◌==◌, if◌then◌else◌, ◌≡◌, ◌⊎◌, refl, sym,
  ◌∙◌, ap, inl, inr, Bool-cases, Option-cases, arith,
}
use log_squirl_tcpdump.TcpReassembly.{
  Entry, TcpReassembly, StreamState, find_entry, release, set_held,
}
use log_squirl_tcpdump.TcpReassembly.Table.{equal_key}
use log_squirl_tcpdump.TcpReassembly.Sound.{is_found, IsSound}
use log_squirl_tcpdump.TcpReassembly.Memory.{IsWithout, release-IsWithout, held_bit-set_held}
use log_squirl_tcpdump.TcpReassembly.Insert.{Keeps}
use log_squirl_tcpdump.TcpReassembly.Begin.{entry_key}
use log_squirl_tcpdump.TcpReassembly.Apply.{forget, release_both}

-- A state that was well formed before the bits of one stream were cleared.
record IsForgotten (state : ℕ) (r : TcpReassembly) : Type 0 where
  pub before : ℕ → StreamState
  pub sound : IsSound (record r { states = before })
  pub bits :
      (a side : ℕ)
      → side < 2
      → ((r.states a).held_bit side ≡ (before a).held_bit side)
        ⊎ ((a ≡ state) × ((r.states a).held_bit side ≡ false))

forget-IsForgotten :
    (state : ℕ) (r : TcpReassembly) → IsSound r → IsForgotten state (forget state r)
unfolding forget
forget-IsForgotten state r s = record {
  before = r.states;
  sound = s;
  bits = λ a side l. elim (Bool-cases (a == state)) [
    | inl same ↦ inr (equal_key a state same, rw same refl)
    | inr other ↦ inl (rw other refl)
  ];
}

cleared :
    (key a side : ℕ) (e : Entry) (now before : ℕ → StreamState)
    → key ≡ 2 * e.state + e.direction
    → e.direction < 2
    → side < 2
    → (now a).held_bit side ≡ (before a).held_bit side
    → (set_held e.state e.direction false now a).held_bit side
      ≡ (set_held e.state e.direction false before a).held_bit side
cleared key a side e now before keyed of_two of_both same =
    held_bit-set_held key e.state e.direction a side false now keyed of_two of_both
    ∙ ap (λ b. if (2 * a + side) == key then false else b) same
    ∙ sym (held_bit-set_held key e.state e.direction a side false before keyed of_two of_both)

stays_off : (c b : Bool) → b ≡ false → (if c then false else b) ≡ false
stays_off c b h = ground arith

-- release leaves the same of the entries, whatever the states say.
record IsReleased (state key : ℕ) (r r' : TcpReassembly) : Type 0 where
  pub forgotten : IsForgotten state r'
  pub limits : (r'.memory_limit ≡ r.memory_limit) × (r'.stream_limit ≡ r.stream_limit)
  pub gone : find_entry key r'.entries ≡ none
  pub others : (j : ℕ) → (j == key) ≡ false → find_entry j r'.entries ≡ find_entry j r.entries

release-IsReleased :
    (state key : ℕ) (r : TcpReassembly)
    → IsForgotten state r
    → IsReleased state key r (release key r)
unfolding release
release-IsReleased state key r h =
    let old : TcpReassembly = record r { states = h.before } in
    let without : IsWithout key old (release key old) = release-IsWithout key old h.sound in
    elim (Option-cases (find_entry key r.entries)) [
      | inl absent ↦ rw absent (record {
        forgotten = record { before = h.before; sound = h.sound; bits = h.bits };
        limits = (refl, refl);
        gone = absent;
        others = λ j n. refl;
      })
      | inr (e, there) ↦
          let well = h.sound.entry key e there in
          let rest = rw there at without in
          rw there (record {
            forgotten = record {
              before = set_held e.state e.direction false h.before;
              sound = rest.sound;
              bits = λ a side l. elim (h.bits a side l) [
                | inl same ↦
                    inl (cleared key a side e r.states h.before well.keyed well.side l same)
                | inr (at, off) ↦ inr (
                  at,
                  held_bit-set_held key e.state e.direction a side false r.states well.keyed
                        well.side l
                      ∙ stays_off _ _ off,
                )
              ];
            };
            limits = rest.limits;
            gone = rest.gone;
            others = rest.others;
          })
    ]

absent_sides :
    (id a side : ℕ) (r : TcpReassembly)
    → a ≡ id
    → side < 2
    → find_entry (entry_key id 0) r.entries ≡ none
    → find_entry (entry_key id 1) r.entries ≡ none
    → find_entry (2 * a + side) r.entries ≡ none
absent_sides id a zero r same l h k = rw same h
absent_sides id a (suc zero) r same l h k = rw same k
absent_sides id a (suc (suc side)) r same l h k = absurd (omega arith)

-- A SYN's release of both directions makes a state whose stream was forgotten well formed again.
pub release_both-forget :
    (id state direction : ℕ) (r : TcpReassembly)
    → id ≡ state
    → IsSound r
    → Keeps r (release_both id state direction true (forget state r))
unfolding release_both
release_both-forget id state direction r same s =
    let start = forget state r in
    let first = release-IsReleased state (entry_key id 0) start (forget-IsForgotten state r s) in
    let r1 = release (entry_key id 0) start in
    let second = release-IsReleased state (entry_key id 1) r1 first.forgotten in
    let r2 = release (entry_key id 1) r1 in
    let sound = second.forgotten.sound in
    let none_0 : find_entry (entry_key id 0) r2.entries ≡ none =
      second.others (entry_key id 0) (ground arith) ∙ first.gone in
    record {
      sound = record {
        total = sound.total;
        bounded = sound.bounded;
        once = sound.once;
        distinct = sound.distinct;
        listed = sound.listed;
        entry = sound.entry;
        bits = λ a side l. elim (second.forgotten.bits a side l) [
          | inl now ↦ now ∙ sound.bits a side l
          | inr (at, off) ↦
              off
              ∙ sym (
                  unfold is_found in
                  ap is_found (absent_sides id a side r2 (at ∙ sym same) l none_0 second.gone))
        ];
      };
      limits =
          unfold forget in (second.limits.0 ∙ first.limits.0, second.limits.1 ∙ first.limits.1);
    }
