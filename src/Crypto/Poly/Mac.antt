-- ===== src/Crypto/Poly/Mac.antt =====
-- RFC 8439's Poly1305 as a function on numbers, and that init, updates with any chunks, and finish of
-- src/wg_crypto_impl.c compute it.
use Prim.Native.Nat.{bit_and}
use polar_wg_app.Common.{
  ℕ, zero, suc, ◌+◌, ◌*◌, ◌/◌, ◌%◌, ◌≤◌, ◌<◌, ◌≡◌, refl, ap, ap₂, sym, ◌∙◌, List, [], ◌∷◌, ◌++◌,
  length, take, drop, length-drop, length-append, take-append, drop-append, take_all, drop_all,
  arith,
}
use polar_wg_app.Crypto.Poly.Load.{le_value, clamp_mask}
use polar_wg_app.Crypto.Poly.Carry.{prime}
use polar_wg_app.Crypto.Poly.Tag.{le_bytes}

-- `a = (a + block) * r`, where the block has a byte 1 after its bytes.
abbrev pub step : ℕ → ℕ → List ℕ → ℕ
step r acc block = (acc + le_value (block ++ 1 ∷ [])) * r % prime

unfoldable pub accumulate : ℕ → ℕ → ℕ → List ℕ → ℕ
accumulate zero r acc m = acc % prime
accumulate (suc fuel) r acc [] = acc % prime
accumulate (suc fuel) r acc (b ∷ m) =
    accumulate fuel r (step r acc (take 16 (b ∷ m))) (drop 16 (b ∷ m))

-- The MAC of a message; as many rounds as it has bytes are enough.
unfoldable pub reference : List ℕ → List ℕ → List ℕ
reference key m =
    let r = bit_and (le_value (take 16 key)) clamp_mask in
    le_bytes 16 (accumulate (length m) r 0 m + le_value (take 16 (drop 16 key)))

accumulate-enough :
    (n k r acc : ℕ) (m : List ℕ)
    → length m ≤ n
    → length m ≤ k
    → accumulate n r acc m ≡ accumulate k r acc m
unfolding accumulate
accumulate-enough zero zero r acc m p q = refl
accumulate-enough zero (suc k) r acc [] p q = refl
accumulate-enough zero (suc k) r acc (x ∷ m) p q = absurd (omega arith)
accumulate-enough (suc n) zero r acc [] p q = refl
accumulate-enough (suc n) zero r acc (x ∷ m) p q = absurd (omega arith)
accumulate-enough (suc n) (suc k) r acc [] p q = refl
accumulate-enough (suc n) (suc k) r acc (x ∷ m) p q =
    accumulate-enough n k r (step r acc (take 16 (x ∷ m))) (drop 15 m)
      (omega (arith, length-drop 15 m)) (omega (arith, length-drop 15 m))

mod_shift : (x y r : ℕ) → (x + prime * y) * r % prime ≡ x * r % prime
mod_shift x y r =
    let e : (x + prime * y) * r ≡ x * r + prime * (y * r) = grind arith in omega (arith, e)

mod_mul : (a b r : ℕ) → a % prime ≡ b % prime → a * r % prime ≡ b * r % prime
mod_mul a b r e =
    ap (λ (t : ℕ). t * r % prime) {y = a % prime + prime * (a / prime)} (omega arith)
    ∙ mod_shift (a % prime) (a / prime) r
    ∙ ap (λ (t : ℕ). t * r % prime) e
    ∙ sym (mod_shift (b % prime) (b / prime) r)
    ∙ ap (λ (t : ℕ). t * r % prime) {x = b % prime + prime * (b / prime)} (omega arith)

step-mod : (r a b : ℕ) (m : List ℕ) → a % prime ≡ b % prime → step r a m ≡ step r b m
step-mod r a b m e =
    mod_mul (a + le_value (m ++ 1 ∷ [])) (b + le_value (m ++ 1 ∷ [])) r (omega (arith, e))

accumulate-mod :
    (n r a b : ℕ) (m : List ℕ) → a % prime ≡ b % prime → accumulate n r a m ≡ accumulate n r b m
unfolding accumulate
accumulate-mod zero r a b m e = e
accumulate-mod (suc n) r a b [] e = e
accumulate-mod (suc n) r a b (x ∷ m) e =
    ap (λ t. accumulate n r t (drop 15 m)) (step-mod r a b (take 16 (x ∷ m)) e)

-- The accumulator after all blocks.
unfoldable pub total : ℕ → ℕ → List ℕ → ℕ
total r acc m = accumulate (length m) r acc m

pub total-mod : (r a b : ℕ) (m : List ℕ) → a % prime ≡ b % prime → total r a m ≡ total r b m
unfolding total
total-mod r a b m e = accumulate-mod (length m) r a b m e

-- One block of a message that has one.
pub total-block :
    (r acc : ℕ) (b m : List ℕ) → length b ≡ 16 → total r acc (b ++ m) ≡ total r (step r acc b) m
unfolding total accumulate
total-block r acc [] m e = absurd (omega (arith, e))
total-block r acc (x ∷ b) m e =
    ap₂ (λ t u. accumulate (length (b ++ m)) r (step r acc t) u) (take-append 16 (x ∷ b) m e)
      (drop-append 16 (x ∷ b) m e)
    ∙ accumulate-enough (length (b ++ m)) (length m) r (step r acc (x ∷ b)) m
        (omega (arith, length-append b m)) (omega arith)

pub total-last :
    (r acc : ℕ) (b : List ℕ) → 0 < length b → length b ≤ 16 → total r acc b ≡ step r acc b
unfolding total accumulate
total-last r acc [] e l = absurd (omega arith)
total-last r acc (x ∷ b) e l =
    ap₂ (λ t u. accumulate (length b) r (step r acc t) u) (take_all 16 (x ∷ b) l)
      (drop_all 16 (x ∷ b) l)
    ∙ accumulate-enough (length b) 0 r (step r acc (x ∷ b)) [] (omega arith) (omega arith)
    ∙ omega arith

pub total-nil : (r acc : ℕ) → total r acc [] ≡ acc % prime
unfolding total accumulate
total-nil r acc = refl
