-- ===== src/Crypto/Chacha/Stream.antt =====
-- `chacha20_xor` of src/wg_crypto_impl.c byte by byte.
use Prim.Native.Nat.{bit_xor}
use native.Mathlib.Decide.{dec_lt}
use polar_wg_app.Common.{
  ℕ, zero, suc, ◌-◌, ◌*◌, ◌/◌, ◌%◌, ◌^◌, ◌≤◌, ◌<◌, ◌≡◌, refl, ap, ap₂, ◌∙◌, List, [], ◌∷◌, length,
  take, drop, length-set, get_or, length-append, length-take, length-drop, ◌==◌, if-cases, arith,
}
use polar_wg_app.Text.Base64.RoundTrip.{IsBytes}
use polar_wg_app.Crypto.Bytes.{
  get_or-bytes, get_or-drop, get_or-take, get_or-append, get_or-append_after, list_ext,
}
use polar_wg_app.Crypto.Bits.{bit_xor-lt, bit_xor-cancel}
use polar_wg_app.Crypto.Chacha.{
  add32, quarter_round, double_round, double_rounds, sum_bytes, chacha20_block, chacha20_state,
  xor_with, xor_blocks, chacha20_xor,
}

-- A block has 64 bytes.
length-quarter_round : (i j k l : ℕ) (x : List ℕ) → length (quarter_round i j k l x) ≡ length x
unfolding quarter_round
length-quarter_round i j k l x = simp length-set refl

length-double_round : (x : List ℕ) → length (double_round x) ≡ length x
unfolding double_round
length-double_round x = simp length-quarter_round refl

length-double_rounds : (n : ℕ) (x : List ℕ) → length (double_rounds n x) ≡ length x
unfolding double_rounds
length-double_rounds zero x = refl
length-double_rounds (suc n) x = length-double_rounds n (double_round x) ∙ length-double_round x

length-sum_bytes :
    (xs ys : List ℕ) → length xs ≡ length ys → length (sum_bytes xs ys) ≡ 4 * length xs
unfolding sum_bytes
length-sum_bytes [] ys e = omega arith
length-sum_bytes (x ∷ xs) [] e = absurd (omega (arith, e))
length-sum_bytes (x ∷ xs) (y ∷ ys) e = omega (arith, length-sum_bytes xs ys (omega (arith, e)))

sum_bytes-IsBytes : (xs ys : List ℕ) → IsBytes (sum_bytes xs ys)
unfolding sum_bytes
sum_bytes-IsBytes [] ys = tt
sum_bytes-IsBytes (x ∷ xs) [] = tt
sum_bytes-IsBytes (x ∷ xs) (y ∷ ys) =
    (omega arith, (omega arith, (omega arith, (omega arith, sum_bytes-IsBytes xs ys))))

pub chacha20_block-IsBytes : (words : List ℕ) → IsBytes (chacha20_block words)
unfolding chacha20_block
chacha20_block-IsBytes words = sum_bytes-IsBytes (double_rounds 10 words) words

length-block :
    (key nonce12 : List ℕ) (ctr : ℕ) → length (chacha20_block (chacha20_state key nonce12 ctr)) ≡ 64
unfolding chacha20_block chacha20_state
length-block key nonce12 ctr =
    let s = chacha20_state key nonce12 ctr in
    let n = length-double_rounds 10 s in
    length-sum_bytes (double_rounds 10 s) s n ∙ omega (arith, n)

length-xor_with : (xs ys : List ℕ) → length (xor_with xs ys) ≡ length xs
unfolding xor_with
length-xor_with [] ys = refl
length-xor_with (x ∷ xs) [] = refl
length-xor_with (x ∷ xs) (y ∷ ys) = ap suc (length-xor_with xs ys)

get_or-xor_with :
    (xs ys : List ℕ) (i : ℕ)
    → i < length xs
    → i < length ys
    → get_or (xor_with xs ys) i 0 ≡ bit_xor (get_or xs i 0) (get_or ys i 0)
unfolding xor_with
get_or-xor_with [] ys i h k = absurd (omega arith)
get_or-xor_with (x ∷ xs) [] i h k = absurd (omega arith)
get_or-xor_with (x ∷ xs) (y ∷ ys) zero h k = refl
get_or-xor_with (x ∷ xs) (y ∷ ys) (suc i) h k = get_or-xor_with xs ys i (omega arith) (omega arith)

-- The byte at `i` of what is combined with the buffer.
abbrev pub stream_byte : List ℕ → List ℕ → ℕ → ℕ → ℕ
stream_byte key nonce12 ctr i =
    get_or (chacha20_block (chacha20_state key nonce12 (add32 ctr (i / 64)))) (i % 64) 0

length-xor_blocks :
    (fuel : ℕ) (key nonce12 : List ℕ) (ctr : ℕ) (buf : List ℕ)
    → length buf ≤ fuel
    → length (xor_blocks fuel key nonce12 ctr buf) ≡ length buf
unfolding xor_blocks
length-xor_blocks zero key nonce12 ctr buf h = omega arith
length-xor_blocks (suc fuel) key nonce12 ctr buf h =
    let block = chacha20_block (chacha20_state key nonce12 ctr) in
    let rest = xor_blocks fuel key nonce12 (add32 ctr 1) (drop 64 buf) in
    if-cases (λ out. length out ≡ length buf) (length buf == 0) {x = []} (λ e. ground arith)
      (λ e.
        let lt : 0 < length buf = ground arith in
        omega (
          arith,
          length-append (xor_with (take 64 buf) block) rest,
          length-xor_with (take 64 buf) block,
          length-take 64 buf,
          length-drop 64 buf,
          length-xor_blocks fuel key nonce12 (add32 ctr 1) (drop 64 buf)
              (omega (arith, length-drop 64 buf)),
        ))

pub length-chacha20_xor :
    (buf key nonce12 : List ℕ) (ctr : ℕ) → length (chacha20_xor buf key nonce12 ctr) ≡ length buf
unfolding chacha20_xor
length-chacha20_xor buf key nonce12 ctr =
    length-xor_blocks (length buf) key nonce12 ctr buf (omega arith)

get_or-xor_blocks :
    (fuel : ℕ) (key nonce12 : List ℕ) (ctr : ℕ) (buf : List ℕ) (i : ℕ)
    → length buf ≤ fuel
    → ctr < 2 ^ 32
    → i < length buf
    → get_or (xor_blocks fuel key nonce12 ctr buf) i 0
      ≡ bit_xor (get_or buf i 0) (stream_byte key nonce12 ctr i)
unfolding xor_blocks
get_or-xor_blocks zero key nonce12 ctr buf i h c k = absurd (omega arith)
get_or-xor_blocks (suc fuel) key nonce12 ctr buf i h c k =
    let block = chacha20_block (chacha20_state key nonce12 ctr) in
    let front = xor_with (take 64 buf) block in
    let rest = xor_blocks fuel key nonce12 (add32 ctr 1) (drop 64 buf) in
    if-cases (λ out. get_or out i 0 ≡ bit_xor (get_or buf i 0) (stream_byte key nonce12 ctr i))
      (length buf == 0) (λ e. absurd (ground arith))
      (λ e. elim (dec_lt i 64) [
        | yes l ↦
            get_or-append front rest i
              (omega (arith, length-xor_with (take 64 buf) block, length-take 64 buf))
            ∙ get_or-xor_with (take 64 buf) block i (omega (arith, length-take 64 buf))
                (omega (arith, length-block key nonce12 ctr))
            ∙ ap₂ bit_xor (get_or-take 64 i buf l) (
                ap (λ t. get_or (chacha20_block (chacha20_state key nonce12 t)) i 0)
                  {y = add32 ctr (i / 64)} (omega arith)
                ∙ ap
                    (λ (j : ℕ).
                      get_or (chacha20_block (chacha20_state key nonce12 (add32 ctr (i / 64)))) j 0)
                    {x = i} {y = i % 64} (omega arith))
        | no l ↦
            let n : length front ≡ 64 =
              omega (arith, length-xor_with (take 64 buf) block, length-take 64 buf, l) in
            get_or-append_after front rest i (omega (arith, n, l))
            ∙ ap (λ j. get_or rest j 0) {y = i - 64} (omega (arith, n))
            ∙ get_or-xor_blocks fuel key nonce12 (add32 ctr 1) (drop 64 buf) (i - 64)
                (omega (arith, length-drop 64 buf)) (omega arith)
                (omega (arith, length-drop 64 buf, l))
            ∙ ap₂ bit_xor
                (get_or-drop 64 (i - 64) buf ∙ ap (λ j. get_or buf j 0) (omega (arith, l)))
                (ap (λ t. get_or (chacha20_block (chacha20_state key nonce12 t)) ((i - 64) % 64) 0)
                    {y = add32 ctr (i / 64)} (omega (arith, l))
                  ∙ ap
                      (λ (j : ℕ).
                        get_or (chacha20_block (chacha20_state key nonce12 (add32 ctr (i / 64)))) j
                          0)
                      {x = (i - 64) % 64} {y = i % 64} (omega (arith, l)))
      ])

-- `chacha20_xor` combines the byte at each place `i` of a buffer by exclusive or with the byte `i % 64` of
-- the block whose counter is `ctr + i / 64`, with wrap-around, where `ctr` fits 32 bits.
pub get_or-chacha20_xor :
    (buf key nonce12 : List ℕ) (ctr i : ℕ)
    → ctr < 2 ^ 32
    → i < length buf
    → get_or (chacha20_xor buf key nonce12 ctr) i 0
      ≡ bit_xor (get_or buf i 0) (stream_byte key nonce12 ctr i)
unfolding chacha20_xor
get_or-chacha20_xor buf key nonce12 ctr i c h =
    get_or-xor_blocks (length buf) key nonce12 ctr buf i (omega arith) c h

-- The same key, nonce and counter give the plaintext back.
pub chacha20_xor_twice :
    (buf key nonce12 : List ℕ) (ctr : ℕ)
    → IsBytes buf
    → ctr < 2 ^ 32
    → chacha20_xor (chacha20_xor buf key nonce12 ctr) key nonce12 ctr ≡ buf
chacha20_xor_twice buf key nonce12 ctr bytes c =
    let out = chacha20_xor buf key nonce12 ctr in
    let n = length-chacha20_xor buf key nonce12 ctr in
    let m = length-chacha20_xor out key nonce12 ctr in
    list_ext _ _ (m ∙ n) (λ i h.
      get_or-chacha20_xor out key nonce12 ctr i c (omega (arith, m))
      ∙ ap (λ t. bit_xor t (stream_byte key nonce12 ctr i))
          (get_or-chacha20_xor buf key nonce12 ctr i c (omega (arith, n, m)))
      ∙ bit_xor-cancel 8 (get_or buf i 0) (stream_byte key nonce12 ctr i) (get_or-bytes buf i bytes)
          (get_or-bytes (chacha20_block (chacha20_state key nonce12 (add32 ctr (i / 64)))) (i % 64)
            (chacha20_block-IsBytes (chacha20_state key nonce12 (add32 ctr (i / 64))))))

-- Encryption gives bytes.
IsBytes-at : (xs : List ℕ) → ((i : ℕ) → i < length xs → get_or xs i 0 < 256) → IsBytes xs
IsBytes-at [] h = tt
IsBytes-at (x ∷ xs) h = (h 0 (omega arith), IsBytes-at xs (λ i k. h (suc i) (omega arith)))

pub chacha20_xor-IsBytes :
    (buf key nonce12 : List ℕ) (ctr : ℕ)
    → IsBytes buf
    → ctr < 2 ^ 32
    → IsBytes (chacha20_xor buf key nonce12 ctr)
chacha20_xor-IsBytes buf key nonce12 ctr bytes c = IsBytes-at _ (λ i h. omega (
  arith,
  get_or-chacha20_xor buf key nonce12 ctr i c
      (omega (arith, length-chacha20_xor buf key nonce12 ctr)),
  bit_xor-lt 8 (get_or buf i 0) (stream_byte key nonce12 ctr i) (get_or-bytes buf i bytes) (
      get_or-bytes (chacha20_block (chacha20_state key nonce12 (add32 ctr (i / 64)))) (i % 64)
        (chacha20_block-IsBytes (chacha20_state key nonce12 (add32 ctr (i / 64))))),
))
