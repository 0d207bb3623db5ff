-- ===== src/PcapngReader/Reads.antt =====
-- src/pcapng_reader.cpp: where the reader is after what it read of a block (readBlockHeader,
-- finishBlock).
use log_squirl_tcpdump.Common.{
  ℕ, ◌%◌, ◌+◌, ◌-◌, ◌≤◌, List, Option, none, Bool, true, false, not, ◌&&◌, ◌||◌, ltb, ◌==◌,
  if◌then◌else◌, ◌≡◌, refl, sym, ◌∙◌, ==_iff, ltb→le, leb→le, length, length-take, length-drop,
  take, arith,
}
use log_squirl_tcpdump.PcapngReader.{
  Problem, in_block, bad_length, header_too_long, in_block_header, unknown_magic, lengths_differ,
  interface_block, max_header_block, in_section_header, BlockHeader, PcapngReader, BlockRead,
  has_read, has_stopped, endless, ◌>>=◌, fail, read_bytes, skip_bytes, exactly, read32,
  minimum_length, section_header_block, check_length, check_magic, read_block_header, finish_block,
}

-- The header that waits, and whether the reader is open.
abbrev pub status : PcapngReader → Option BlockHeader × Bool
status r = (r.pending, r.is_open)

-- The reader has read some bytes, all of which the source had, and declared no interface.
pub record Moved (n : ℕ) (r r' : PcapngReader) : Type 0 where
  pub place : r'.bytes_read ≡ r.bytes_read + n
  pub total : r'.bytes_read + length r'.source ≡ r.bytes_read + length r.source
  pub declared : r'.interfaces ≡ r.interfaces
  pub waiting : status r' ≡ status r

pub Moved-trans :
    (n m : ℕ) (r r' r'' : PcapngReader) → Moved n r r' → Moved m r' r'' → Moved (n + m) r r''
Moved-trans n m r r' r'' h k =
    let p = h.place in
    let q = k.place in
    record {
      place = omega (arith, p, q);
      total = k.total ∙ h.total;
      declared = k.declared ∙ h.declared;
      waiting = k.waiting ∙ h.waiting;
    }

-- Without a problem, the source has no byte left.
pub record Ended (r : PcapngReader) : Type 0 where
  pub used_up : r.problem ≡ none → length r.source ≡ 0

abbrev Result {ℓ} : {A : Type ℓ} → (A → PcapngReader → Type 0) → BlockRead A → Type 0
Result P (has_read a r) = P a r
Result P (has_stopped r) = Ended r
Result P endless = ⊥

pub record Reads {ℓ} {A : Type ℓ} (P : A → PcapngReader → Type 0) (m : BlockRead A) : Type 0 where
  pub result : Result P m

pub reads {ℓ} :
    {A : Type ℓ} {P : A → PcapngReader → Type 0} {a : A} {r : PcapngReader}
    → P a r
    → Reads P (has_read a r)
reads h = record { result = h }

pub Reads-fail {ℓ} :
    {A : Type ℓ} (P : A → PcapngReader → Type 0) (p : Problem) (r : PcapngReader)
    → Reads {A = A} P (fail p r)
Reads-fail P p r = record { result = record { used_up = λ e. absurd cc } }

pub Reads-bind {ℓ κ} :
    {A : Type ℓ} {B : Type κ} (P : A → PcapngReader → Type 0) (Q : B → PcapngReader → Type 0)
    (m : BlockRead A) (f : A → PcapngReader → BlockRead B)
    → Reads P m
    → ((a : A) (r : PcapngReader) → P a r → Reads Q (f a r))
    → Reads Q (m >>= f)
Reads-bind P Q (has_read a r) f h k = k a r h.result
Reads-bind P Q (has_stopped r) f h k = record { result = h.result }
Reads-bind P Q endless f h k = absurd h.result

pub Reads-map {ℓ} :
    {A : Type ℓ} (P Q : A → PcapngReader → Type 0) (m : BlockRead A)
    → Reads P m
    → ((a : A) (r : PcapngReader) → P a r → Q a r)
    → Reads Q m
Reads-map P Q (has_read a r) h k = record { result = k a r h.result }
Reads-map P Q (has_stopped r) h k = record { result = h.result }
Reads-map P Q endless h k = absurd h.result

pub Reads-test {ℓ} :
    {A : Type ℓ} (P : A → PcapngReader → Type 0) (c : Bool) (x y : BlockRead A)
    → (c ≡ true → Reads P x)
    → (c ≡ false → Reads P y)
    → Reads P (if c then x else y)
Reads-test P true x y h k = h refl
Reads-test P false x y h k = k refl

pub Reads-branch {ℓ} :
    {A : Type ℓ} (P : A → PcapngReader → Type 0) (c : Bool) (x y : BlockRead A)
    → (c ≡ true → Reads P x)
    → (c ≡ false → Reads P y)
    → Reads P (elim c [ true ↦ x | false ↦ y ])
Reads-branch P true x y h k = h refl
Reads-branch P false x y h k = k refl

pub exactly-Reads :
    (n : ℕ) (p : Problem) (r : PcapngReader)
    → Reads (λ bytes r'. (length bytes ≡ n) × Moved n r r') (exactly n p r)
unfolding exactly read_bytes
exactly-Reads n p r =
    let taken = length-take n r.source in
    let dropped = length-drop n r.source in
    Reads-test _ (ltb (length (take n r.source)) n) _ _ (λ short. Reads-fail _ p (read_bytes n r).1)
      (λ whole.
        let enough = ltb→le _ _ whole in
        reads (
          omega (arith, taken, enough),
          record {
            place = omega (arith, taken, enough);
            total = omega (arith, taken, dropped, enough);
            declared = refl;
            waiting = refl;
          },
        ))

pub skip_bytes-Moved :
    (n : ℕ) (r : PcapngReader) → (skip_bytes n r).0 ≡ true → Moved n r (skip_bytes n r).1
unfolding skip_bytes
skip_bytes-Moved n r ok =
    let enough = leb→le n (length r.source) ok in
    let dropped = length-drop n r.source in
    record { place = refl; total = omega (arith, enough, dropped); declared = refl; waiting = refl }

-- A block's header is read: it is long enough for its type, and the reader is behind what was read.
pub record IsHeader (r : PcapngReader) (block : BlockHeader) (r' : PcapngReader) : Type 0 where
  pub typed : block.block_type ≡ read32 r.swap 0 (take 8 r.source)
  pub begins : block.start ≡ r.bytes_read
  pub moved : Moved block.consumed r r'
  pub long_enough : minimum_length block.block_type ≤ block.block_length
  pub by_type : block.consumed ≡ (if block.block_type == section_header_block then 12 else 8)

check_length-IsHeader :
    (r : PcapngReader) (header : List ℕ) (t consumed : ℕ) (r' : PcapngReader)
    → t ≡ read32 r.swap 0 (take 8 r.source)
    → Moved consumed r r'
    → consumed ≡ (if t == section_header_block then 12 else 8)
    → Reads (IsHeader r) (check_length r.bytes_read header t consumed r')
unfolding check_length
check_length-IsHeader r header t consumed r' typed moved sized =
    let n = read32 r'.swap 4 header in
    Reads-test _ (not (n % 4 == 0) || ltb n (minimum_length t)) _ _
      (λ bad. Reads-fail _ bad_length r')
      (λ good.
        Reads-test _
          (((t == section_header_block) || (t == interface_block)) && ltb max_header_block n) _ _
          (λ too_long. Reads-fail _ header_too_long r')
          (λ fits. reads (record {
            typed = typed;
            begins = refl;
            moved = moved;
            long_enough = ground arith;
            by_type = sized;
          })))

pub read_block_header-IsHeader : (r : PcapngReader) → Reads (IsHeader r) (read_block_header r)
unfolding read_block_header read_bytes check_magic
read_block_header-IsHeader r =
    let header = take 8 r.source in
    let t = read32 r.swap 0 header in
    let taken = length-take 8 r.source in
    let dropped = length-drop 8 r.source in
    let r1 = (read_bytes 8 (record r { problem = none })).1 in
    Reads-test _ (length header == 0) _ _
      (λ nothing.
        let empty : length header ≡ 0 = (==_iff (length header) 0).0 nothing in
        record { result = record { used_up = λ e. omega (arith, taken, dropped, empty) } })
      (λ something.
        Reads-test _ (ltb (length header) 8) _ _ (λ cut. Reads-fail _ in_block_header r1)
          (λ whole.
            let enough = ltb→le _ _ whole in
            let moved : Moved 8 r r1 = record {
              place = omega (arith, taken, enough);
              total = omega (arith, taken, dropped, enough);
              declared = refl;
              waiting = refl;
            } in
            Reads-test _ (t == section_header_block) _ _
              (λ section.
                Reads-bind (λ bytes r'. (length bytes ≡ 4) × Moved 4 r1 r') _ _ _
                  (exactly-Reads 4 in_section_header r1)
                  (λ magic r' h.
                    Reads-test _ _ _ _ (λ unknown. Reads-fail _ unknown_magic r')
                      (λ known.
                        let both = Moved-trans 8 4 r r1 r' moved h.1 in
                        check_length-IsHeader r header section_header_block 12
                          (record r' { swap = read32 false 0 magic == 0x4D3C2B1A })
                          (sym ((==_iff t section_header_block).0 section))
                          (record {
                            place = both.place;
                            total = both.total;
                            declared = both.declared;
                            waiting = both.waiting;
                          })
                          refl)))
              (λ other. check_length-IsHeader r header t 8 r1 refl moved (rw other refl))))

-- The reader is behind the block.
pub record IsPast (block : BlockHeader) (r r' : PcapngReader) : Type 0 where
  pub place : r'.bytes_read ≡ block.start + block.block_length
  pub total : r'.bytes_read + length r'.source ≡ r.bytes_read + length r.source
  pub waiting : status r' ≡ status r

pub finish_block-IsPast :
    (block : BlockHeader) (r : PcapngReader)
    → r.bytes_read ≡ block.start + block.consumed
    → block.consumed + 4 ≤ block.block_length
    → Reads (λ b r'. IsPast block r r' × (r'.interfaces ≡ r.interfaces)) (finish_block block r)
unfolding finish_block
finish_block-IsPast block r at room =
    let n = block.block_length - 4 - block.consumed in
    Reads-test _ (not (skip_bytes n r).0) _ _ (λ cut. Reads-fail _ in_block (skip_bytes n r).1)
      (λ skipped.
        let first = skip_bytes-Moved n r (ground arith) in
        Reads-bind (λ bytes r'. (length bytes ≡ 4) × Moved 4 _ r') _ _ _
          (exactly-Reads 4 in_block _)
          (λ trailer r' h.
            Reads-test _ (read32 r'.swap 0 trailer == block.block_length) _ _
              (λ same.
                let both = Moved-trans n 4 r _ r' first h.1 in
                let place = both.place in
                reads (
                  record {
                    place = omega (arith, place, at, room);
                    total = both.total;
                    waiting = both.waiting;
                  },
                  both.declared,
                ))
              (λ differ. Reads-fail _ lengths_differ r')))
