-- ===== src/PcapngReader/Times.antt =====
-- src/pcapng_reader.cpp: the part of a second in a packet's timestamp (readPacket).
use native.Mathlib.Nat.{
  mod-lt, mul-lt-mul_of_pos_right, div-lt_iff_lt-mul, pow-suc, pow-zero, mul_assoc, mul_comm,
  one-le-pow, pow-le-pow_right, mod-eq_of_lt, div-mul-le_self, lt-div-mul-add, mul-le-mul_right,
}
use log_squirl_tcpdump.Common.{
  ℕ, zero, suc, ◌+◌, ◌-◌, ◌*◌, ◌/◌, ◌%◌, ◌^◌, ◌≤◌, ◌<◌, Bool, true, false, leb, ◌≡◌, sym, subst,
  ◌∙◌, ap, inl, inr, Bool-cases, leb→le, leb→lt, arith,
}
use log_squirl_tcpdump.PcapngReader.{TimeUnit}
use log_squirl_tcpdump.PcapngReader.Blocks.{per_second, finest, fraction_ns}

pow_add : (b m n : ℕ) → b ^ (m + n) ≡ b ^ m * b ^ n
pow_add b m zero =
    let none_more : m + 0 ≡ m = omega arith in
    ap (λ (k : ℕ). b ^ k) none_more ∙ omega (arith, ap (λ (k : ℕ). b ^ m * k) (pow-zero b))
pow_add b m (suc n) =
    let next : m + suc n ≡ suc (m + n) = omega arith in
    ap (λ (k : ℕ). b ^ k) next
    ∙ pow-suc b (m + n)
    ∙ ap (λ (k : ℕ). k * b) (pow_add b m n)
    ∙ mul_assoc (b ^ m) (b ^ n) b
    ∙ ap (λ (k : ℕ). b ^ m * k) (sym (pow-suc b n))

pow_split : (b m n : ℕ) → m ≤ n → b ^ m * b ^ (n - m) ≡ b ^ n
pow_split b m n h =
    let all : m + (n - m) ≡ n = omega (arith, h) in
    sym (pow_add b m (n - m)) ∙ ap (λ (k : ℕ). b ^ k) all

-- A part of `whole` parts, in billionths.
scaled_lt : (part whole : ℕ) → part < whole → part * 10 ^ 9 / whole < 10 ^ 9
scaled_lt part whole h =
    let positive : 0 < whole = omega (arith, h) in
    (div-lt_iff_lt-mul positive).1 (
      subst (λ x. part * 10 ^ 9 < x) (mul_comm whole (10 ^ 9))
        (mul-lt-mul_of_pos_right h (omega arith)))

quotient_lt : (part b m n : ℕ) → 0 < b → m ≤ n → part < b ^ n → part / b ^ (n - m) < b ^ m
quotient_lt part b m n h k l =
    (div-lt_iff_lt-mul (one-le-pow (n - m) b h)).1
      (subst (λ x. part < x) (sym (pow_split b m n k)) l)

-- A part of `whole` parts is `ns` billionths, or less than two more.
IsNear : ℕ → ℕ → ℕ → Type 0
IsNear ns part whole = (ns * whole ≤ part * 10 ^ 9) × (part * 10 ^ 9 < (ns + 2) * whole)

scaled-IsNear : (part whole : ℕ) → 0 < whole → IsNear (part * 10 ^ 9 / whole) part whole
unfolding IsNear
scaled-IsNear part whole h =
    (div-mul-le_self (part * 10 ^ 9) whole, omega (arith, lt-div-mul-add {a = part * 10 ^ 9} h))

exact-IsNear :
    (part more whole : ℕ) → 0 < whole → more * whole ≡ 10 ^ 9 → IsNear (part * more) part whole
unfolding IsNear
exact-IsNear part more whole h all =
    let exact : part * more * whole ≡ part * 10 ^ 9 =
      mul_assoc part more whole ∙ ap (λ (k : ℕ). part * k) all in
    (omega (arith, exact), omega (arith, exact, h))

quotient-IsNear : (part b : ℕ) → 0 < b → IsNear (part / b) part (10 ^ 9 * b)
unfolding IsNear
quotient-IsNear part b h =
    let least = div-mul-le_self part b in
    let most = lt-div-mul-add {a = part} h in (omega (arith, least), omega (arith, most, h))

shortened-IsNear : (part b : ℕ) → 0 < b → IsNear (part / b * 10 ^ 9 / 2 ^ 34) part (2 ^ 34 * b)
unfolding IsNear
shortened-IsNear part b h =
    let x = part / b in
    let n = x * 10 ^ 9 / 2 ^ 34 in
    let least = div-mul-le_self part b in
    let most = lt-div-mul-add {a = part} h in
    let below : n * 2 ^ 34 ≤ x * 10 ^ 9 = omega arith in
    let above : x * 10 ^ 9 ≤ (n + 1) * 2 ^ 34 = omega arith in
    let below_all = mul-le-mul_right b below in
    let above_all = mul-le-mul_right b above in
    (omega (arith, least, below_all), omega (arith, most, above_all, h))

-- The part of a second that a timestamp has beyond its seconds, in nanoseconds.
pub record IsRounded (unit : TimeUnit) (timestamp : ℕ) : Type 0 where
  pub below : fraction_ns unit timestamp < 10 ^ 9
  pub units : per_second unit < 2 ^ 64
  pub least : fraction_ns unit timestamp * per_second unit ≤ timestamp % per_second unit * 10 ^ 9
  pub most :
      timestamp % per_second unit * 10 ^ 9 < (fraction_ns unit timestamp + 2) * per_second unit

unwrapped : (n : ℕ) → n < 2 ^ 64 → n % 2 ^ 64 ≡ n
unwrapped n h = mod-eq_of_lt h

decimal-IsRounded :
    (timestamp e : ℕ) → e ≤ 19 → IsRounded (record { binary = false; exponent = e }) timestamp
unfolding IsNear fraction_ns
decimal-IsRounded timestamp e h =
    let part = timestamp % 10 ^ e in
    let some_units = one-le-pow e 10 (omega arith) in
    let below : part < 10 ^ e = mod-lt timestamp some_units in
    let largest : 10 ^ e ≤ 10 ^ 19 = pow-le-pow_right (omega arith) h in
    let fits : 10 ^ e < 2 ^ 64 = omega (arith, largest) in
    elim (Bool-cases (leb e 9)) [
      | inl coarse ↦
          let few : part * 10 ^ (9 - e) < 10 ^ 9 =
            subst (λ x. part * 10 ^ (9 - e) < x) (pow_split 10 e 9 (leb→le e 9 coarse))
              (mul-lt-mul_of_pos_right below (one-le-pow (9 - e) 10 (omega arith))) in
          let all = mul_comm (10 ^ (9 - e)) (10 ^ e) ∙ pow_split 10 e 9 (leb→le e 9 coarse) in
          let near = exact-IsNear part (10 ^ (9 - e)) (10 ^ e) some_units all in
          let is = unwrapped (part * 10 ^ (9 - e)) (omega (arith, few)) in
          record {
            below = rw (coarse, is) few;
            units = fits;
            least = rw (coarse, is) near.0;
            most = rw (coarse, is) near.1;
          }
      | inr fine ↦
          let above = leb→lt e 9 fine in
          let b = 10 ^ (e - 9) in
          let few = quotient_lt part 10 9 e (omega arith) (omega (arith, above)) below in
          let near : IsNear (part / b) part (10 ^ e) =
            subst (λ w. IsNear (part / b) part w) (pow_split 10 9 e (omega (arith, above)))
              (quotient-IsNear part b (one-le-pow (e - 9) 10 (omega arith))) in
          record {
            below = rw fine few;
            units = fits;
            least = rw fine near.0;
            most = rw fine near.1;
          }
    ]

binary-IsRounded :
    (timestamp e : ℕ) → e ≤ 63 → IsRounded (record { binary = true; exponent = e }) timestamp
unfolding IsNear fraction_ns
binary-IsRounded timestamp e h =
    let part = timestamp % 2 ^ e in
    let some_units = one-le-pow e 2 (omega arith) in
    let below : part < 2 ^ e = mod-lt timestamp some_units in
    let largest : 2 ^ e ≤ 2 ^ 63 = pow-le-pow_right (omega arith) h in
    let fits : 2 ^ e < 2 ^ 64 = omega (arith, largest) in
    elim (Bool-cases (leb e 34)) [
      | inl coarse ↦
          let most_units : 2 ^ e ≤ 2 ^ 34 = pow-le-pow_right (omega arith) (leb→le e 34 coarse) in
          let is = unwrapped (part * 10 ^ 9) (omega (arith, below, most_units)) in
          let near = scaled-IsNear part (2 ^ e) some_units in
          record {
            below = rw (coarse, is) (scaled_lt part (2 ^ e) below);
            units = fits;
            least = rw (coarse, is) near.0;
            most = rw (coarse, is) near.1;
          }
      | inr fine ↦
          let above = leb→lt e 34 fine in
          let b = 2 ^ (e - 34) in
          let few : part / b < 2 ^ 34 =
            quotient_lt part 2 34 e (omega arith) (omega (arith, above)) below in
          let is = unwrapped (part / b * 10 ^ 9) (omega (arith, few)) in
          let ns = part / b * 10 ^ 9 / 2 ^ 34 in
          let near : IsNear ns part (2 ^ e) =
            subst (λ w. IsNear ns part w) (pow_split 2 34 e (omega (arith, above)))
              (shortened-IsNear part b (one-le-pow (e - 34) 2 (omega arith))) in
          record {
            below = rw (fine, is) (scaled_lt _ (2 ^ 34) few);
            units = fits;
            least = rw (fine, is) near.0;
            most = rw (fine, is) near.1;
          }
    ]

-- Of a time unit within the bound that readInterface checks, and 64-bit products that wrap: the
-- part of a second is below 10 ^ 9 nanoseconds; the units in a second fit in 64 bits; and of the
-- exact number of nanoseconds, the timestamp's units beyond its seconds times 10 ^ 9 by the units
-- in a second, it is at most that and less than two short of it.
pub fraction_ns-IsRounded :
    (unit : TimeUnit) (timestamp : ℕ) → unit.exponent ≤ finest unit → IsRounded unit timestamp
fraction_ns-IsRounded unit timestamp h = elim (Bool-cases unit.binary) [
  | inl is ↦
      subst (λ (b : Bool). IsRounded (record { binary = b; exponent = unit.exponent }) timestamp)
        (sym is) (binary-IsRounded timestamp unit.exponent (ground arith))
  | inr is ↦
      subst (λ (b : Bool). IsRounded (record { binary = b; exponent = unit.exponent }) timestamp)
        (sym is) (decimal-IsRounded timestamp unit.exponent (ground arith))
]
