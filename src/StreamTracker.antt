-- ===== src/StreamTracker.antt =====
-- src/stream_tracker.h and src/stream_tracker.cpp: the numbers of the streams. A map is an association
-- list, a text the list of its bytes; the states' addresses are left out.
pub mod Keys
pub mod Numbers
use log_squirl_tcpdump.Common.{
  ℕ, zero, suc, ◌+◌, ◌-◌, ◌/◌, ◌%◌, List, [], ◌∷◌, ◌++◌, Option, none, some, Bool, true, false, not,
  ◌&&◌, ◌||◌, ltb, leb, ◌==◌, if◌then◌else◌, length,
}
use log_squirl_tcpdump.PacketRecord.{PacketRecord, Transport, tcp, udp}

-- kNoStream, kUnnumbered, or a number.
pub data StreamId : Type 0 where
  no_stream unnumbered : StreamId
  numbered : ℕ → StreamId

pub record Stream : Type 0 where
  pub id : StreamId
  pub direction : ℕ

pub record Conversations : Type 0 where
  pub ids : List (List ℕ × ℕ)
  pub states : ℕ

pub record StreamTracker : Type 0 where
  pub tcp_streams : Conversations
  pub udp_streams : Conversations
  pub max_streams : ℕ
  pub limit_reached : Bool

-- `std::to_string` of a port, which has five digits at most.
abbrev pub digits : ℕ → ℕ → List ℕ
digits zero n = []
digits (suc fuel) n =
    if ltb n 10 then (48 + n) ∷ [] else digits fuel (n / 10) ++ ((48 + n % 10) ∷ [])

-- `ip + ":" + std::to_string( port )`
unfoldable pub endpoint : List ℕ → ℕ → List ℕ
endpoint ip port = ip ++ (58 ∷ digits 5 port)

-- `<` of two texts.
unfoldable pub less : List ℕ → List ℕ → Bool
less xs [] = false
less [] (y ∷ ys) = true
less (x ∷ xs) (y ∷ ys) = if x == y then less xs ys else ltb x y

unfoldable pub direction_of : List ℕ → List ℕ → ℕ
direction_of a b = if less b a then 1 else 0

-- The two endpoints with "|" between, the lesser first.
unfoldable pub key_of : List ℕ → List ℕ → List ℕ
key_of a b = if less b a then b ++ (124 ∷ a) else a ++ (124 ∷ b)

unfoldable pub same_text : List ℕ → List ℕ → Bool
same_text [] [] = true
same_text (x ∷ xs) (y ∷ ys) = (x == y) && same_text xs ys
same_text _ _ = false

unfoldable pub find : List ℕ → List (List ℕ × ℕ) → Option ℕ
unfolding same_text
find key [] = none
find key ((k, id) ∷ rest) = if same_text k key then some id else find key rest

-- The tables of one transport: found, full, or a new number.
unfoldable pub track_key : Bool → List ℕ → ℕ → Conversations → Conversations × Bool × Stream
track_key full key direction c = elim (find key c.ids) [
  | some id ↦ (c, false, record { id = numbered id; direction = direction })
  | none ↦
      let next : Conversations = record { ids = (key, c.states) ∷ c.ids; states = c.states + 1 } in
      if full
      then (c, true, record { id = unnumbered; direction = 0 })
      else (next, false, record { id = numbered c.states; direction = direction })
]

abbrev pub streams_count : StreamTracker → ℕ
streams_count t = length t.tcp_streams.ids + length t.udp_streams.ids

-- A packet of a transport from one endpoint to another.
unfoldable pub track_ends :
    StreamTracker → Option Transport → List ℕ → List ℕ → StreamTracker × Stream
unfolding track_key direction_of key_of
track_ends t none a b = (t, record { id = no_stream; direction = 0 })
track_ends t (some tcp) a b =
    let full = leb t.max_streams (streams_count t) in
    let (c, limit, s) = track_key full (key_of a b) (direction_of a b) t.tcp_streams in
    (record t { tcp_streams = c; limit_reached = t.limit_reached || limit }, s)
track_ends t (some udp) a b =
    let full = leb t.max_streams (streams_count t) in
    let (c, limit, s) = track_key full (key_of a b) (direction_of a b) t.udp_streams in
    (record t { udp_streams = c; limit_reached = t.limit_reached || limit }, s)

unfoldable pub track : StreamTracker → PacketRecord → StreamTracker × Stream
unfolding track_ends endpoint
track t pkt =
    track_ends t pkt.transport (endpoint pkt.src_ip pkt.src_port) (endpoint pkt.dst_ip pkt.dst_port)
