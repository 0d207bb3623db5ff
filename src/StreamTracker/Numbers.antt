-- ===== src/StreamTracker/Numbers.antt =====
-- A conversation keeps its number, and the numbered ones are bounded.
use log_squirl_tcpdump.Common.{
  ℕ, ◌+◌, ◌<◌, ◌≡◌, ◌≢◌, refl, inl, inr, List, [], ◌∷◌, Bool, true, false, arith, leb, ◌==◌, Option,
  some, none, Option-cases,
}
use log_squirl_tcpdump.PacketRecord.{PacketRecord, Transport, tcp, udp}
use log_squirl_tcpdump.StreamTracker.{
  direction_of, key_of, Conversations, StreamTracker, numbered, track_key, find, same_text,
  endpoint, track, track_ends, streams_count,
}
use log_squirl_tcpdump.StreamTracker.Keys.{key_of-swap}

same_text_self : (xs : List ℕ) → same_text xs xs ≡ true
unfolding same_text
same_text_self [] = refl
same_text_self (x ∷ xs) = let e : (x == x) ≡ true = ground arith in rw (e, same_text_self xs)

find_first :
    (key : List ℕ) (id : ℕ) (rest : List (List ℕ × ℕ)) → find key ((key, id) ∷ rest) ≡ some id
unfolding find
find_first key id rest = rw (same_text_self key)

track_key-known :
    (full : Bool) (key : List ℕ) (d id : ℕ) (c : Conversations)
    → find key c.ids ≡ some id
    → track_key full key d c ≡ (c, false, record { id = numbered id; direction = d })
unfolding track_key
track_key-known full key d id c known = rw (known, track_key)

track_key-new :
    (key : List ℕ) (d : ℕ) (c : Conversations)
    → find key c.ids ≡ none
    → track_key false key d c ≡ (
      record { ids = (key, c.states) ∷ c.ids; states = c.states + 1 },
      false,
      record { id = numbered c.states; direction = d },
    )
unfolding track_key
track_key-new key d c new = rw (new, track_key)

-- A conversation that has been given a number keeps it.
track_key-again :
    (full : Bool) (key : List ℕ) (d d' : ℕ) (c : Conversations)
    → (track_key full key d' (track_key false key d c).0).2.id ≡ (track_key false key d c).2.id
track_key-again full key d d' c = elim (Option-cases (find key c.ids)) [
  | inl new ↦
      let c' : Conversations = record { ids = (key, c.states) ∷ c.ids; states = c.states + 1 } in
      rw (track_key-new key d c new)
        (rw (track_key-known full key d' c.states c' (find_first key c.states c.ids)))
  | inr (id, known) ↦
      rw (track_key-known false key d id c known) (rw (track_key-known full key d' id c known))
]

-- The packet that answers one.
abbrev pub reply : PacketRecord → PacketRecord
reply pkt = record pkt {
  src_ip = pkt.dst_ip;
  src_port = pkt.dst_port;
  dst_ip = pkt.src_ip;
  dst_port = pkt.src_port;
}

room :
    (t : StreamTracker)
    → streams_count t < t.max_streams
    → leb t.max_streams (streams_count t) ≡ false
room t h = ground arith

track_ends-reply :
    (t : StreamTracker) (tr : Option Transport) (a b : List ℕ)
    → a ≢ b
    → streams_count t < t.max_streams
    → (track_ends (track_ends t tr a b).0 tr b a).1.id ≡ (track_ends t tr a b).1.id
unfolding track_ends
track_ends-reply t none a b apart h = refl
track_ends-reply t (some tcp) a b apart h =
    rw (room t h, (key_of-swap a b apart).0)
      (track_key-again _ (key_of b a) (direction_of a b) (direction_of b a) t.tcp_streams)
track_ends-reply t (some udp) a b apart h =
    rw (room t h, (key_of-swap a b apart).0)
      (track_key-again _ (key_of b a) (direction_of a b) (direction_of b a) t.udp_streams)

-- A packet of a tracker that has numbered fewer conversations than it may, between two endpoints
-- that differ, and the packet that answers it get the same stream number.
pub track-reply :
    (t : StreamTracker) (pkt : PacketRecord)
    → endpoint pkt.src_ip pkt.src_port ≢ endpoint pkt.dst_ip pkt.dst_port
    → streams_count t < t.max_streams
    → (track (track t pkt).0 (reply pkt)).1.id ≡ (track t pkt).1.id
unfolding track
track-reply t pkt apart h = track_ends-reply t pkt.transport _ _ apart h
