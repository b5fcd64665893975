-- ===== src/Keccak.antt =====
-- packages/coding-agent/src/policy/keccak256.js, and toolKey of policyToolKeys.js. A lane is a number
-- below 2 ^ 64, and `~a & b` on such numbers is b without the bits of a.
mod Tests
use Prim.Native.Nat.{bit_and, bit_or, bit_xor}
use Prim.Native.Char.{Char, code}
use Prim.Native.String.{◌++◌ as ◌+++◌}
use monad_hackathon.Idempotency.Once.{count}
use monad_hackathon.Prelude.{
  List, String, [], if◌then◌else◌, ltb, map, suc, zero, ℕ, ◌%◌, ◌*◌, ◌+◌, ◌-◌, ◌/◌, ◌==◌, ◌^◌, ◌∷◌,
}

abbrev mask_64 : ℕ
mask_64 = 18446744073709551615

-- RHO, by rows.
abbrev rho : List (List ℕ)
rho =
    (0 ∷ 36 ∷ 3 ∷ 41 ∷ 18 ∷ [])
    ∷ (1 ∷ 44 ∷ 10 ∷ 45 ∷ 2 ∷ [])
    ∷ (62 ∷ 6 ∷ 43 ∷ 15 ∷ 61 ∷ [])
    ∷ (28 ∷ 55 ∷ 25 ∷ 21 ∷ 56 ∷ [])
    ∷ (27 ∷ 20 ∷ 39 ∷ 8 ∷ 14 ∷ [])
    ∷ []

-- RC
abbrev round_constants : List ℕ
round_constants =
    0x0000000000000001 ∷ 0x0000000000008082 ∷ 0x800000000000808a ∷ 0x8000000080008000
    ∷ 0x000000000000808b ∷ 0x0000000080000001 ∷ 0x8000000080008081 ∷ 0x8000000000008009
    ∷ 0x000000000000008a ∷ 0x0000000000000088 ∷ 0x0000000080008009 ∷ 0x000000008000000a
    ∷ 0x000000008000808b ∷ 0x800000000000008b ∷ 0x8000000000008089 ∷ 0x8000000000008003
    ∷ 0x8000000000008002 ∷ 0x8000000000000080 ∷ 0x000000000000800a ∷ 0x800000008000000a
    ∷ 0x8000000080008081 ∷ 0x8000000000008080 ∷ 0x0000000080000001 ∷ 0x8000000080008008 ∷ []

-- `xs[i]`, 0 out of range, which no index is.
item : List ℕ → ℕ → ℕ
item [] i = 0
item (x ∷ xs) zero = x
item (x ∷ xs) (suc i) = item xs i

row : List (List ℕ) → ℕ → List ℕ
row [] i = []
row (r ∷ rs) zero = r
row (r ∷ rs) (suc i) = row rs i

-- `xs[i] = v`
put_item : ℕ → ℕ → List ℕ → List ℕ
put_item i v [] = []
put_item zero v (x ∷ xs) = v ∷ xs
put_item (suc i) v (x ∷ xs) = x ∷ put_item i v xs

zeros : ℕ → List ℕ
zeros zero = []
zeros (suc n) = 0 ∷ zeros n

abbrev five : List ℕ
five = 0 ∷ 1 ∷ 2 ∷ 3 ∷ 4 ∷ []

-- for (x = 0; x < 5; x++) s = body x s
loop_over {ℓ} : {S : Type ℓ} → List ℕ → (ℕ → S → S) → S → S
loop_over [] body s = s
loop_over (x ∷ xs) body s = loop_over xs body (body x s)

rot : ℕ → ℕ → ℕ
rot value shift =
    let n = shift % 64 in
    if n == 0
    then bit_and value mask_64
    else bit_and (bit_or (value * 2 ^ n) (value / 2 ^ (64 - n))) mask_64

columns : List ℕ → List ℕ
unfolding item
columns state =
    map
      (λ x.
        bit_xor
          (bit_xor (bit_xor (bit_xor (item state x) (item state (x + 5))) (item state (x + 10)))
            (item state (x + 15)))
          (item state (x + 20)))
      five

differences : List ℕ → List ℕ
unfolding item rot
differences c = map (λ x. bit_xor (item c ((x + 4) % 5)) (rot (item c ((x + 1) % 5)) 1)) five

theta : List ℕ → List ℕ → List ℕ
unfolding loop_over item put_item
theta d state =
    loop_over five
      (λ x.
        loop_over five
          λ y s. put_item (x + 5 * y) (bit_and (bit_xor (item s (x + 5 * y)) (item d x)) mask_64) s)
      state

rho_pi : List ℕ → List ℕ
unfolding loop_over item put_item row rot zeros
rho_pi state =
    loop_over five
      (λ x. loop_over five λ y b.
        put_item (y + 5 * ((2 * x + 3 * y) % 5)) (rot (item state (x + 5 * y)) (item (row rho x) y))
          b)
      (zeros 25)

chi : List ℕ → List ℕ → List ℕ
unfolding loop_over item put_item
chi b state =
    loop_over five
      (λ x. loop_over five λ y s.
        let next = item b ((x + 1) % 5 + 5 * y) in
        let after = item b ((x + 2) % 5 + 5 * y) in
        put_item (x + 5 * y)
          (bit_and (bit_xor (item b (x + 5 * y)) (bit_xor after (bit_and next after))) mask_64) s)
      state

-- One round.
round : ℕ → List ℕ → List ℕ
unfolding columns differences theta rho_pi chi item put_item
round rc state =
    let s = theta (differences (columns state)) state in
    let t = chi (rho_pi s) s in put_item 0 (bit_and (bit_xor (item t 0) rc) mask_64) t

rounds : List ℕ → List ℕ → List ℕ
unfolding round
rounds [] state = state
rounds (rc ∷ rcs) state = rounds rcs (round rc state)

keccak_f : List ℕ → List ℕ
unfolding rounds
keccak_f state = rounds round_constants state

-- `state[i / 8] ^= byte << 8 * (i % 8)`
mix : ℕ → ℕ → List ℕ → List ℕ
unfolding item put_item
mix i byte state = put_item (i / 8) (bit_xor (item state (i / 8)) (byte * 2 ^ (8 * (i % 8)))) state

-- The bytes that are left, at the place `i` of the block; a full block is permuted.
absorb : List ℕ → ℕ → List ℕ → List ℕ × ℕ
unfolding mix keccak_f
absorb [] i state = (state, i)
absorb (byte ∷ bytes) i state =
    let mixed = mix i byte state in
    absorb bytes (if i == 135 then 0 else i + 1) (if i == 135 then keccak_f mixed else mixed)

hex_digit : ℕ → Char
hex_digit n =
    nth
      ("0" ∷ "1" ∷ "2" ∷ "3" ∷ "4" ∷ "5" ∷ "6" ∷ "7" ∷ "8" ∷ "9" ∷ "a" ∷ "b" ∷ "c" ∷ "d" ∷ "e" ∷ "f"
        ∷ [])
      n
  where
    nth : List Char → ℕ → Char
    nth [] n = "0"
    nth (c ∷ cs) zero = c
    nth (c ∷ cs) (suc n) = nth cs n

hex_byte : ℕ → String → String
unfolding hex_digit
hex_byte b rest = String.◌∷◌ (hex_digit (b / 16)) (String.◌∷◌ (hex_digit (b % 16)) rest)

-- `count` bytes of the state from the place `i` on, in hex.
squeeze : ℕ → ℕ → List ℕ → String
unfolding item hex_byte
squeeze zero i state = ""
squeeze (suc count) i state =
    hex_byte (bit_and (item state (i / 8) / 2 ^ (8 * (i % 8))) 255) (squeeze count (i + 1) state)

unfoldable pub keccak256_bytes : List ℕ → String
unfolding absorb mix keccak_f squeeze zeros
keccak256_bytes bytes =
    let (state, rem) = absorb bytes 0 (zeros 25) in
    String.◌∷◌ "0" (String.◌∷◌ "x" (squeeze 32 0 (keccak_f (mix 135 128 (mix rem 1 state)))))

-- `Buffer.from(s, 'utf8')`
utf8_char : ℕ → List ℕ → List ℕ
utf8_char c rest =
    if ltb c 128
    then c ∷ rest
    else if ltb c 2048
    then (192 + c / 64) ∷ (128 + c % 64) ∷ rest
    else if ltb c 65536
    then (224 + c / 4096) ∷ (128 + c / 64 % 64) ∷ (128 + c % 64) ∷ rest
    else (240 + c / 262144) ∷ (128 + c / 4096 % 64) ∷ (128 + c / 64 % 64) ∷ (128 + c % 64) ∷ rest

unfoldable pub utf8 : String → List ℕ
unfolding utf8_char
utf8 String.[] = []
utf8 (String.◌∷◌ c s) = utf8_char (code c) (utf8 s)

unfoldable pub keccak256 : String → String
unfolding utf8 keccak256_bytes
keccak256 s = keccak256_bytes (utf8 s)

unfoldable pub tool_key : String → String
unfolding keccak256
tool_key tool_name = keccak256 tool_name
