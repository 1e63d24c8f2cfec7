-- ===== src/Crypto/Chacha.antt =====
-- ChaCha20 of src/wg_crypto_impl.c: `chacha20_block`, `chacha20_xor`, `poly1305_key_gen` and
-- `hchacha20`. A word of 32 bits is a number below 2 ^ 32, a `uint32_t x[16]` a list of 16 words.
pub mod Stream
use Prim.Native.Nat.{bit_or, bit_xor}
use polar_wg_app.Common.{
  ℕ, zero, suc, ◌+◌, ◌-◌, ◌*◌, ◌/◌, ◌%◌, ◌^◌, Bool, true, false, List, [], ◌∷◌, ◌++◌, ◌==◌,
  if◌then◌else◌, length, take, drop, get_or, set,
}
use polar_wg_app.Session.Types.{le32, put_le32}

abbrev pub add32 : ℕ → ℕ → ℕ
add32 a b = (a + b) % 2 ^ 32

-- `ROTL32`
unfoldable pub rotl32 : ℕ → ℕ → ℕ
rotl32 v n = bit_or (v * 2 ^ n % 2 ^ 32) (v / 2 ^ (32 - n))

abbrev pub word_at : List ℕ → ℕ → ℕ
word_at x i = get_or x i 0

-- `QR` on the words at four places.
unfoldable pub quarter_round : ℕ → ℕ → ℕ → ℕ → List ℕ → List ℕ
quarter_round i j k l x =
    let a1 = add32 (word_at x i) (word_at x j) in
    let d1 = rotl32 (bit_xor (word_at x l) a1) 16 in
    let c1 = add32 (word_at x k) d1 in
    let b1 = rotl32 (bit_xor (word_at x j) c1) 12 in
    let a2 = add32 a1 b1 in
    let d2 = rotl32 (bit_xor d1 a2) 8 in
    let c2 = add32 c1 d2 in
    let b2 = rotl32 (bit_xor b1 c2) 7 in set (set (set (set x i a2) j b2) k c2) l d2

-- One round of the loops of `chacha20_block` and `hchacha20`.
unfoldable pub double_round : List ℕ → List ℕ
double_round x =
    let y =
      quarter_round 3 7 11 15
        (quarter_round 2 6 10 14 (quarter_round 1 5 9 13 (quarter_round 0 4 8 12 x))) in
    quarter_round 3 4 9 14
      (quarter_round 2 7 8 13 (quarter_round 1 6 11 12 (quarter_round 0 5 10 15 y)))

unfoldable pub double_rounds : ℕ → List ℕ → List ℕ
double_rounds zero x = x
double_rounds (suc n) x = double_rounds n (double_round x)

-- The words of `x` and `y` added, as bytes.
unfoldable pub sum_bytes : List ℕ → List ℕ → List ℕ
sum_bytes [] ys = []
sum_bytes (x ∷ xs) [] = []
sum_bytes (x ∷ xs) (y ∷ ys) = put_le32 (add32 x y) ++ sum_bytes xs ys

-- `chacha20_block`
unfoldable pub chacha20_block : List ℕ → List ℕ
chacha20_block words = sum_bytes (double_rounds 10 words) words

-- The constants, the key and the last four words of a state.
abbrev pub start_words : List ℕ → List ℕ → List ℕ
start_words key rest =
    0x61707865
    ∷ 0x3320646e
    ∷ 0x79622d32
    ∷ 0x6b206574
    ∷ le32 key 0
    ∷ le32 key 4
    ∷ le32 key 8
    ∷ le32 key 12
    ∷ le32 key 16
    ∷ le32 key 20
    ∷ le32 key 24
    ∷ le32 key 28
    ∷ rest

-- The state with its counter.
unfoldable pub chacha20_state : List ℕ → List ℕ → ℕ → List ℕ
chacha20_state key nonce12 ctr =
    start_words key (ctr ∷ le32 nonce12 0 ∷ le32 nonce12 4 ∷ le32 nonce12 8 ∷ [])

-- The inner loop: as many bytes as `buf` has are combined with those of the block.
unfoldable pub xor_with : List ℕ → List ℕ → List ℕ
xor_with [] block = []
xor_with (b ∷ buf) [] = b ∷ buf
xor_with (b ∷ buf) (k ∷ block) = bit_xor b k ∷ xor_with buf block

-- The outer loop for at most `fuel` blocks, from the block `ctr` on.
unfoldable pub xor_blocks : ℕ → List ℕ → List ℕ → ℕ → List ℕ → List ℕ
xor_blocks zero key nonce12 ctr buf = []
xor_blocks (suc fuel) key nonce12 ctr buf =
    let rest = xor_blocks fuel key nonce12 (add32 ctr 1) (drop 64 buf) in
    if length buf == 0
    then []
    else xor_with (take 64 buf) (chacha20_block (chacha20_state key nonce12 ctr)) ++ rest

-- `chacha20_xor`; as many rounds as there are bytes are enough.
unfoldable pub chacha20_xor : List ℕ → List ℕ → List ℕ → ℕ → List ℕ
chacha20_xor buf key nonce12 ctr0 = xor_blocks (length buf) key nonce12 ctr0 buf

-- `poly1305_key_gen`
unfoldable pub poly1305_key_gen : List ℕ → List ℕ → List ℕ
poly1305_key_gen key nonce12 = take 32 (chacha20_block (chacha20_state key nonce12 0))

-- `hchacha20`: the first and the last four words after the rounds.
unfoldable pub hchacha20 : List ℕ → List ℕ → List ℕ
hchacha20 nonce16 key =
    let x =
      double_rounds 10 (
        start_words key
          (le32 nonce16 0 ∷ le32 nonce16 4 ∷ le32 nonce16 8 ∷ le32 nonce16 12 ∷ [])) in
    put_le32 (word_at x 0)
    ++ (put_le32 (word_at x 1)
        ++ (put_le32 (word_at x 2)
            ++ (put_le32 (word_at x 3)
                ++ (put_le32 (word_at x 12)
                    ++ (put_le32 (word_at x 13)
                        ++ (put_le32 (word_at x 14) ++ put_le32 (word_at x 15)))))))
