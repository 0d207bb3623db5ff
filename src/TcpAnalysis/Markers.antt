-- ===== src/TcpAnalysis/Markers.antt =====
-- What a classified segment tells.
use log_squirl_tcpdump.Common.{
  ℕ, ◌+◌, ◌≤◌, ◌<◌, ◌≡◌, ◌≢◌, refl, inl, inr, List, [], ◌∷◌, Bool, true, false, arith, ◌%◌, ◌^◌,
  Bool-cases, if◌then◌else◌, if_both, ◌&&◌, ◌||◌, not, ◌==◌, ltb, All, subst, ◌∙◌,
}
use log_squirl_tcpdump.TcpAnalysis.{
  TcpDirection, TcpMarker, spurious_retransmission, zero_window_probe_marker, keep_alive_marker,
  mark_all, test, marker_bit, seq_is_before, seq_is_after, Segment, Checked, check_ack,
  check_windows, check_repeat, repeats, is_probe, answers_keep_alive, answers_probe, repeats_ack,
  syn_fin, mark,
}
use log_squirl_tcpdump.TcpAnalysis.Classify.{
  count_acks, sent_again, remember, classify, late_kind, end_of_segment, not_advanced,
}

forward :
    (end old : ℕ)
    → old < 2 ^ 32
    → (c : Bool) → seq_is_before (if seq_is_after end old && c then end else old) old ≡ false
forward end old small c = ground arith

remember-forward :
    (fwd : TcpDirection) (seg : Segment) (markers : List TcpMarker)
    → fwd.next_seq < 2 ^ 32
    → fwd.next_seq ≢ 0
    → seq_is_before (remember fwd seg markers).next_seq fwd.next_seq ≡ false
unfolding remember
remember-forward fwd seg markers small known =
    let begun : (fwd.next_seq == 0) ≡ false = ground arith in
    rw begun (
      forward (end_of_segment seg) fwd.next_seq small (not (test zero_window_probe_marker markers)))

-- How many of the markers say that the segment was sent again or late.
unfoldable pub late_markers : List TcpMarker → ℕ
late_markers [] = 0
late_markers (m ∷ ms) = (if ltb (marker_bit m) 4 then 1 else 0) + late_markers ms

NotLate : Bool × TcpMarker → Type 0
NotLate p = ltb (marker_bit p.1) 4 ≡ false

mark-late :
    (c : Bool) (m : TcpMarker) (ms : List TcpMarker)
    → ltb (marker_bit m) 4 ≡ false
    → late_markers ms ≡ 0
    → late_markers (mark c m ms) ≡ 0
unfolding late_markers
mark-late true m ms h k = rw h (omega (arith, k))
mark-late false m ms h k = k

mark_all-late :
    (cs : List (Bool × TcpMarker)) (ms : List TcpMarker)
    → All NotLate cs
    → late_markers ms ≡ 0
    → late_markers (mark_all cs ms) ≡ 0
unfolding mark_all NotLate
mark_all-late [] ms h k = k
mark_all-late ((c, m) ∷ cs) ms h k = mark_all-late cs (mark c m ms) h.1 (mark-late c m ms h.0 k)

check_windows-late :
    (fwd rev : TcpDirection) (seg : Segment) → late_markers (check_windows fwd rev seg) ≡ 0
unfolding check_windows NotLate late_markers
check_windows-late fwd rev seg = mark_all-late _ [] (refl, (refl, (refl, (refl, (refl, tt))))) refl

-- A property of what checkAck may leave.
check_repeat_both :
    (P : Checked → Type 0) (fwd rev : TcpDirection) (seg : Segment) (markers : List TcpMarker)
    → ((fwd' rev' : TcpDirection) (ms : List TcpMarker) (frame : ℕ)
        → fwd'.next_seq ≡ fwd.next_seq
        → late_markers ms ≡ late_markers markers
        → P (record { fwd = fwd'; rev = rev'; markers = ms; dup_ack_frame = frame }))
    → P (check_repeat fwd rev seg markers)
unfolding check_repeat late_markers
check_repeat_both P fwd rev seg markers h = elim (Bool-cases (answers_keep_alive fwd rev seg)) [
  | inl a ↦ rw a (h _ _ _ _ refl (omega arith))
  | inr na ↦ elim (Bool-cases (answers_probe fwd rev seg)) [
    | inl b ↦ rw (na, b) (h _ _ _ _ refl (omega arith))
    | inr nb ↦ elim (Bool-cases (repeats_ack fwd seg)) [
      | inl c ↦ rw (na, nb, c) (h _ _ _ _ refl (omega arith))
      | inr nc ↦ rw (na, nb, nc) (h _ _ _ _ refl refl)
    ]
  ]
]

check_ack_both :
    (P : Checked → Type 0) (fwd rev : TcpDirection) (seg : Segment)
    → ((fwd' rev' : TcpDirection) (ms : List TcpMarker) (frame : ℕ)
        → fwd'.next_seq ≡ fwd.next_seq
        → late_markers ms ≡ 0
        → P (record { fwd = fwd'; rev = rev'; markers = ms; dup_ack_frame = frame }))
    → P (check_ack fwd rev seg)
unfolding check_ack late_markers
check_ack_both P fwd rev seg h =
    let none_late = check_windows-late fwd rev seg in
    elim (Bool-cases (is_probe fwd rev seg)) [
      | inl a ↦ rw a (h _ _ _ _ refl refl)
      | inr na ↦ elim (Bool-cases (repeats fwd seg)) [
        | inl b ↦
            rw (na, b)
              (check_repeat_both P fwd rev seg (check_windows fwd rev seg)
                (λ f r ms n e k. h f r ms n e (k ∙ none_late)))
        | inr nb ↦ rw (na, nb) (h _ _ _ _ refl none_late)
      ]
    ]

check_ack-next_seq :
    (fwd rev : TcpDirection) (seg : Segment) → (check_ack fwd rev seg).fwd.next_seq ≡ fwd.next_seq
check_ack-next_seq fwd rev seg =
    check_ack_both (λ c. c.fwd.next_seq ≡ fwd.next_seq) fwd rev seg (λ f r ms n e k. e)

check_ack-late :
    (fwd rev : TcpDirection) (seg : Segment) → late_markers (check_ack fwd rev seg).markers ≡ 0
check_ack-late fwd rev seg =
    check_ack_both (λ c. late_markers c.markers ≡ 0) fwd rev seg (λ f r ms n e k. k)

count_acks-next_seq :
    (fwd : TcpDirection) (seg : Segment) → (count_acks fwd seg).next_seq ≡ fwd.next_seq
unfolding count_acks
count_acks-next_seq fwd seg = ground arith

-- Of a direction whose next sequence number is known, classifying a segment of it never moves
-- that number back, as numbers of 32 bits compare.
pub classify-forward :
    (fwd rev : TcpDirection) (seg : Segment)
    → fwd.next_seq < 2 ^ 32
    → fwd.next_seq ≢ 0
    → seq_is_before (classify fwd rev seg).fwd.next_seq fwd.next_seq ≡ false
unfolding classify
classify-forward fwd rev seg small known =
    let c = check_ack fwd rev seg in
    let same : (count_acks c.fwd seg).next_seq ≡ fwd.next_seq =
      count_acks-next_seq c.fwd seg ∙ check_ack-next_seq fwd rev seg in
    subst (λ n. seq_is_before (classify fwd rev seg).fwd.next_seq n ≡ false) same
      (remember-forward (count_acks c.fwd seg) seg
        (sent_again (count_acks c.fwd seg) c.rev seg c.markers) (rw same small) (rw same known))

at_most_one :
    (m : TcpMarker) (markers : List TcpMarker)
    → late_markers markers ≡ 0
    → late_markers (m ∷ markers) ≤ 1
unfolding late_markers
at_most_one m markers h =
    if_both (λ (n : ℕ). n + late_markers markers ≤ 1) (ltb (marker_bit m) 4) (omega (arith, h))
      (omega (arith, h))

-- A property of what the markers may become when a segment is sent again or late.
sent_again_both :
    (P : List TcpMarker → Type 0) (fwd rev : TcpDirection) (seg : Segment)
    (markers : List TcpMarker)
    → P markers
    → ((m : TcpMarker) → P (m ∷ markers))
    → P (sent_again fwd rev seg markers)
unfolding sent_again
sent_again_both P fwd rev seg markers same more =
    let c = (ltb 0 seg.len || syn_fin seg) && not (test keep_alive_marker markers) in
    let end = (seg.seq + seg.len) % 2 ^ 32 in
    let d = ltb 0 seg.len && not (rev.last_ack == 0) && not (seq_is_after end rev.last_ack) in
    elim (Bool-cases c) [
      | inr new ↦ rw new same
      | inl again ↦ elim (Bool-cases d) [
        | inl spurious ↦ rw (again, spurious) (more spurious_retransmission)
        | inr fresh ↦ elim (Bool-cases (not_advanced fwd seg)) [
          | inl late ↦ rw (again, fresh, late) (more (late_kind fwd rev seg))
          | inr on_time ↦ rw (again, fresh, on_time) same
        ]
      ]
    ]

sent_again-late :
    (fwd rev : TcpDirection) (seg : Segment) (markers : List TcpMarker)
    → late_markers markers ≡ 0
    → late_markers (sent_again fwd rev seg markers) ≤ 1
sent_again-late fwd rev seg markers h =
    sent_again_both (λ ms. late_markers ms ≤ 1) fwd rev seg markers (omega (arith, h))
      (λ m. at_most_one m markers h)

or_true : (a : Bool) {b : Bool} → b ≡ true → (a || b) ≡ true
or_true true h = refl
or_true false h = h

sent_again-test :
    (fwd rev : TcpDirection) (seg : Segment) (m : TcpMarker) (markers : List TcpMarker)
    → test m markers ≡ true
    → test m (sent_again fwd rev seg markers) ≡ true
sent_again-test fwd rev seg m markers h =
    sent_again_both (λ ms. test m ms ≡ true) fwd rev seg markers h
      (λ m'. or_true (marker_bit m' == marker_bit m) h)

unmoved : (b : Bool) (x y : ℕ) → (if b && not true then x else y) ≡ y
unmoved true x y = refl
unmoved false x y = refl

remember-probe :
    (fwd : TcpDirection) (seg : Segment) (markers : List TcpMarker)
    → test zero_window_probe_marker markers ≡ true
    → ((remember fwd seg markers).next_seq ≡ fwd.next_seq)
      × ((remember fwd seg markers).zero_window_probe ≡ true)
unfolding remember
remember-probe fwd seg markers h =
    (rw h (unmoved ((fwd.next_seq == 0) || seq_is_after (end_of_segment seg) fwd.next_seq) _ _), h)

-- A classified segment has at most one of the markers Retransmission, Fast Retransmission,
-- Spurious Retransmission and Out-Of-Order.
pub classify-late :
    (fwd rev : TcpDirection) (seg : Segment) → late_markers (classify fwd rev seg).markers ≤ 1
unfolding classify
classify-late fwd rev seg =
    let c = check_ack fwd rev seg in
    sent_again-late (count_acks c.fwd seg) c.rev seg c.markers (check_ack-late fwd rev seg)

-- Classifying a zero window probe, the one byte at the next sequence number into a closed window,
-- leaves the next sequence number and the other direction as they were, and is remembered as a
-- probe.
pub classify-probe :
    (fwd rev : TcpDirection) (seg : Segment)
    → is_probe fwd rev seg ≡ true
    → ((classify fwd rev seg).fwd.next_seq ≡ fwd.next_seq)
      × ((classify fwd rev seg).fwd.zero_window_probe ≡ true)
      × ((classify fwd rev seg).rev ≡ rev)
unfolding classify check_ack
classify-probe fwd rev seg probe =
    let f = count_acks fwd seg in
    let marked =
      sent_again-test f rev seg zero_window_probe_marker (zero_window_probe_marker ∷ []) refl in
    let (kept, remembered) =
      remember-probe f seg (sent_again f rev seg (zero_window_probe_marker ∷ [])) marked in
    rw probe (kept ∙ count_acks-next_seq fwd seg, remembered, refl)
