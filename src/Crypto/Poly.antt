-- ===== src/Crypto/Poly.antt =====
-- Poly1305 of src/wg_crypto_impl.c, with its five limbs of 26 bits. A `uint32_t` is a number below
-- 2 ^ 32, a `uint64_t` one below 2 ^ 64, and the wrap-around of each sum and product is written out.
pub mod Load
pub mod Carry
pub mod Block
pub mod Finish
pub mod Tag
pub mod Mac
pub mod Stream
pub mod Result
use Prim.Native.Nat.{bit_and, bit_or}
use polar_wg_app.Common.{
  ℕ, zero, suc, ◌+◌, ◌-◌, ◌*◌, ◌/◌, ◌%◌, ◌^◌, Bool, true, false, List, [], ◌∷◌, ◌++◌, ltb, leb,
  ◌==◌, if◌then◌else◌, length, take, drop, get_or, replicate,
}
use polar_wg_app.Session.Types.{le32, put_le32}
use polar_wg_app.Crypto.Chacha.{add32}

pub record Limbs : Type 0 where
  pub l0 : ℕ
  pub l1 : ℕ
  pub l2 : ℕ
  pub l3 : ℕ
  pub l4 : ℕ

-- `poly1305_ctx`; `s` holds the four words of the key's second half, and `buf` the `buflen` bytes.
pub record Poly : Type 0 where
  pub r : Limbs
  pub s : List ℕ
  pub h : Limbs
  pub buf : List ℕ

-- The low 26 bits.
abbrev pub mask26 : ℕ → ℕ
mask26 n = bit_and n 0x3ffffff

-- A product and a sum of `uint32_t`.
abbrev pub mul32 : ℕ → ℕ → ℕ
mul32 a b = a * b % 2 ^ 32

-- The five parts of 16 bytes from which `poly1305_init` and `poly1305_block` take their limbs.
unfoldable pub parts : List ℕ → Limbs
parts m =
    let t0 = le32 m 0 in
    let t1 = le32 m 4 in
    let t2 = le32 m 8 in
    let t3 = le32 m 12 in
    record {
      l0 = t0;
      l1 = bit_or (t0 / 2 ^ 26) (t1 * 2 ^ 6 % 2 ^ 32);
      l2 = bit_or (t1 / 2 ^ 20) (t2 * 2 ^ 12 % 2 ^ 32);
      l3 = bit_or (t2 / 2 ^ 14) (t3 * 2 ^ 18 % 2 ^ 32);
      l4 = t3 / 2 ^ 8;
    }

-- The part `r` of a key.
unfoldable pub clamped_limbs : List ℕ → Limbs
clamped_limbs key =
    let t = parts key in
    record {
      l0 = bit_and t.l0 0x3ffffff;
      l1 = bit_and t.l1 0x3ffff03;
      l2 = bit_and t.l2 0x3ffc0ff;
      l3 = bit_and t.l3 0x3f03fff;
      l4 = bit_and t.l4 0x00fffff;
    }

abbrev pub zero_limbs : Limbs
zero_limbs = record { l0 = 0; l1 = 0; l2 = 0; l3 = 0; l4 = 0 }

-- `poly1305_init`
unfoldable pub poly1305_init : List ℕ → Poly
poly1305_init key = record {
  r = clamped_limbs key;
  s = le32 key 16 ∷ le32 key 20 ∷ le32 key 24 ∷ le32 key 28 ∷ [];
  h = zero_limbs;
  buf = [];
}

-- The accumulator with a block of 16 bytes added.
unfoldable pub absorb : Limbs → List ℕ → ℕ → Limbs
absorb h m hibit =
    let t = parts m in
    record {
      l0 = add32 h.l0 (mask26 t.l0);
      l1 = add32 h.l1 (mask26 t.l1);
      l2 = add32 h.l2 (mask26 t.l2);
      l3 = add32 h.l3 (mask26 t.l3);
      l4 = add32 h.l4 (bit_or t.l4 hibit);
    }

-- `d[0]` to `d[4]`
unfoldable pub products : Limbs → Limbs → Limbs
products h r =
    let s1 = mul32 r.l1 5 in
    let s2 = mul32 r.l2 5 in
    let s3 = mul32 r.l3 5 in
    let s4 = mul32 r.l4 5 in
    record {
      l0 = (h.l0 * r.l0 + h.l1 * s4 + h.l2 * s3 + h.l3 * s2 + h.l4 * s1) % 2 ^ 64;
      l1 = (h.l0 * r.l1 + h.l1 * r.l0 + h.l2 * s4 + h.l3 * s3 + h.l4 * s2) % 2 ^ 64;
      l2 = (h.l0 * r.l2 + h.l1 * r.l1 + h.l2 * r.l0 + h.l3 * s4 + h.l4 * s3) % 2 ^ 64;
      l3 = (h.l0 * r.l3 + h.l1 * r.l2 + h.l2 * r.l1 + h.l3 * r.l0 + h.l4 * s4) % 2 ^ 64;
      l4 = (h.l0 * r.l4 + h.l1 * r.l3 + h.l2 * r.l2 + h.l3 * r.l1 + h.l4 * r.l0) % 2 ^ 64;
    }

abbrev pub add64 : ℕ → ℕ → ℕ
add64 a b = (a + b) % 2 ^ 64

-- The carries at the end of `poly1305_block`.
unfoldable pub carried : Limbs → Limbs
carried d =
    let d1 = add64 d.l1 (d.l0 / 2 ^ 26) in
    let d2 = add64 d.l2 (d1 / 2 ^ 26) in
    let d3 = add64 d.l3 (d2 / 2 ^ 26) in
    let d4 = add64 d.l4 (d3 / 2 ^ 26) in
    let h0 = add32 (mask26 (d.l0 % 2 ^ 32)) (d4 / 2 ^ 26 * 5 % 2 ^ 64 % 2 ^ 32) in
    record {
      l0 = mask26 h0;
      l1 = add32 (mask26 (d1 % 2 ^ 32)) (h0 / 2 ^ 26);
      l2 = mask26 (d2 % 2 ^ 32);
      l3 = mask26 (d3 % 2 ^ 32);
      l4 = mask26 (d4 % 2 ^ 32);
    }

-- `poly1305_block`
unfoldable pub poly1305_block : Limbs → Limbs → List ℕ → ℕ → Limbs
poly1305_block r h m hibit = carried (products (absorb h m hibit) r)

-- The block with the bit above its 16 bytes set.
abbrev pub full_block : Limbs → Limbs → List ℕ → Limbs
full_block r h m = poly1305_block r h m (2 ^ 24)

-- The loop over full blocks and the partial block that it leaves, with at most `fuel` rounds.
unfoldable pub blocks : ℕ → Poly → List ℕ → Poly
blocks zero p m = record p { buf = m }
blocks (suc fuel) p m =
    let rest = blocks fuel (record p { h = full_block p.r p.h (take 16 m) }) (drop 16 m) in
    if leb 16 (length m) then rest else record p { buf = m }

-- `poly1305_update`. The bytes of `buf` beyond `buflen` are not kept: nothing reads them.
unfoldable pub poly1305_update : Poly → List ℕ → Poly
poly1305_update p m =
    if ltb 0 (length p.buf)
    then (let want = 16 - length p.buf in
        if ltb (length m) want
        then record p { buf = p.buf ++ m }
        else blocks (length m)
            (record p { h = full_block p.r p.h (p.buf ++ take want m); buf = [] }) (drop want m))
    else blocks (length m) p m

-- The last block, of fewer than 16 bytes, with a byte 1 after them.
unfoldable pub flushed : Poly → Limbs
flushed p =
    if ltb 0 (length p.buf)
    then poly1305_block p.r p.h (p.buf ++ 1 ∷ replicate (15 - length p.buf) 0) 0
    else p.h

-- The carries of `poly1305_finish`.
unfoldable pub settled : Limbs → Limbs
settled h =
    let a2 = add32 h.l2 (h.l1 / 2 ^ 26) in
    let a3 = add32 h.l3 (a2 / 2 ^ 26) in
    let a4 = add32 h.l4 (a3 / 2 ^ 26) in
    let a0 = add32 h.l0 (mul32 (a4 / 2 ^ 26) 5) in
    record {
      l0 = mask26 a0;
      l1 = add32 (mask26 h.l1) (a0 / 2 ^ 26);
      l2 = mask26 a2;
      l3 = mask26 a3;
      l4 = mask26 a4;
    }

-- `h + -p`, whose last limb has its highest bit set where `h` is below `p`.
unfoldable pub minus_p : Limbs → Limbs
minus_p h =
    let g0 = add32 h.l0 5 in
    let g1 = add32 h.l1 (g0 / 2 ^ 26) in
    let g2 = add32 h.l2 (g1 / 2 ^ 26) in
    let g3 = add32 h.l3 (g2 / 2 ^ 26) in
    record {
      l0 = mask26 g0;
      l1 = mask26 g1;
      l2 = mask26 g2;
      l3 = mask26 g3;
      l4 = (add32 h.l4 (g3 / 2 ^ 26) + 2 ^ 32 - 2 ^ 26) % 2 ^ 32;
    }

-- `(h & ~mask) | (g & mask)`
abbrev pub select : ℕ → ℕ → ℕ → ℕ
select mask h g = bit_or (bit_and h (2 ^ 32 - 1 - mask)) (bit_and g mask)

-- `h` where it is below `p`, and `g` where it is not.
unfoldable pub chosen : Limbs → Limbs → Limbs
chosen h g =
    let mask = (g.l4 / 2 ^ 31 + 2 ^ 32 - 1) % 2 ^ 32 in
    record {
      l0 = select mask h.l0 g.l0;
      l1 = select mask h.l1 g.l1;
      l2 = select mask h.l2 g.l2;
      l3 = select mask h.l3 g.l3;
      l4 = select mask h.l4 g.l4;
    }

-- The four words of the low 128 bits.
unfoldable pub low_words : Limbs → List ℕ
low_words h =
    bit_or h.l0 (h.l1 * 2 ^ 26 % 2 ^ 32)
    ∷ bit_or (h.l1 / 2 ^ 6) (h.l2 * 2 ^ 20 % 2 ^ 32)
    ∷ bit_or (h.l2 / 2 ^ 12) (h.l3 * 2 ^ 14 % 2 ^ 32)
    ∷ bit_or (h.l3 / 2 ^ 18) (h.l4 * 2 ^ 8 % 2 ^ 32)
    ∷ []

-- The sum of the words of `s` and a carry, as the bytes of the tag.
unfoldable pub add_words : ℕ → List ℕ → List ℕ → List ℕ
add_words f [] ss = []
add_words f (h ∷ hs) [] = []
add_words f (h ∷ hs) (s ∷ ss) =
    put_le32 ((f + h + s) % 2 ^ 32) ++ add_words ((f + h + s) / 2 ^ 32) hs ss

-- `poly1305_finish`
unfoldable pub poly1305_finish : Poly → List ℕ
poly1305_finish p =
    let h = settled (flushed p) in add_words 0 (low_words (chosen h (minus_p h))) p.s
