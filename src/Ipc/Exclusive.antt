-- ===== src/Ipc/Exclusive.antt =====
-- `^` of lib/ipc/decode_encode.cpp, digit by digit: what changes one operand changes the result.
use my_orm.Prelude.{ℕ, zero, suc, ◌+◌, ◌*◌, ◌/◌, ◌%◌, ◌≤◌, ◌<◌, ◌≡◌, refl, sym, ◌∙◌, arith}
use Prim.Native.Nat.{bit_xor, bit_xor-bitwise, digits, differ}

-- The exclusive or of the lowest digits, no fewer than the first number has.
abbrev mixed : ℕ → ℕ → ℕ → ℕ
mixed count a b = digits (λ rest. rest) differ count a b

differ_bits : (x y : ℕ) → x < 2 → y < 2 → differ x y ≡ (x + y) % 2
differ_bits zero y hx hy = omega arith
differ_bits (suc zero) zero hx hy = refl
differ_bits (suc zero) (suc zero) hx hy = refl
differ_bits (suc zero) (suc (suc y)) hx hy = absurd (omega arith)
differ_bits (suc (suc x)) y hx hy = absurd (omega arith)

mixed-zero : (count b : ℕ) → mixed count 0 b ≡ b
mixed-zero zero b = refl
mixed-zero (suc count) b = refl

mixed_halve :
    (count a b : ℕ) → mixed (suc count) a b ≡ mixed count (a / 2) (b / 2) * 2 + (a % 2 + b % 2) % 2
mixed_halve count zero b = omega (arith, mixed-zero count (b / 2))
mixed_halve count (suc a) b =
    omega (arith, differ_bits (suc a % 2) (b % 2) (omega arith) (omega arith))

mixed_more : (n m a b : ℕ) → a ≤ n → a ≤ m → mixed n a b ≡ mixed m a b
mixed_more zero m zero b hn hm = sym (mixed-zero m b)
mixed_more zero m (suc a) b hn hm = absurd (omega arith)
mixed_more (suc n) zero zero b hn hm = refl
mixed_more (suc n) zero (suc a) b hn hm = absurd (omega arith)
mixed_more (suc n) (suc m) a b hn hm =
    let halves = mixed_more n m (a / 2) (b / 2) (omega arith) (omega arith) in
    omega (arith, mixed_halve n a b, mixed_halve m a b, halves)

mixed-injective_left : (n a c y : ℕ) → a ≤ n → c ≤ n → mixed n a y ≡ mixed n c y → a ≡ c
mixed-injective_left zero a c y ha hc h = omega arith
mixed-injective_left (suc n) a c y ha hc h =
    let first = mixed_halve n a y in
    let second = mixed_halve n c y in
    let halves =
      mixed-injective_left n (a / 2) (c / 2) (y / 2) (omega arith) (omega arith)
        (omega (arith, first, second, h)) in
    omega (arith, first, second, h, halves)

mixed-injective_right : (n x b d : ℕ) → mixed n x b ≡ mixed n x d → b ≡ d
mixed-injective_right zero x b d h = h
mixed-injective_right (suc n) x b d h =
    let first = mixed_halve n x b in
    let second = mixed_halve n x d in
    let halves =
      mixed-injective_right n (x / 2) (b / 2) (d / 2) (omega (arith, first, second, h)) in
    omega (arith, first, second, h, halves)

bit_xor-mixed : (n a b : ℕ) → a ≤ n → bit_xor a b ≡ mixed n a b
bit_xor-mixed n a b h = bit_xor-bitwise a b ∙ mixed_more a n a b (omega arith) h

pub bit_xor-injective_left : (a c y : ℕ) → bit_xor a y ≡ bit_xor c y → a ≡ c
bit_xor-injective_left a c y h =
    mixed-injective_left (a + c) a c y (omega arith) (omega arith)
      (sym (bit_xor-mixed (a + c) a y (omega arith)) ∙ h ∙ bit_xor-mixed (a + c) c y (omega arith))

pub bit_xor-injective_right : (x b d : ℕ) → bit_xor x b ≡ bit_xor x d → b ≡ d
bit_xor-injective_right x b d h =
    mixed-injective_right x x b d (sym (bit_xor-bitwise x b) ∙ h ∙ bit_xor-bitwise x d)
