-- ===== src/Callout/Cancel.antt =====
-- What `callout_stop` of src/macos_stubs/sys/callout.h cancels, and what `callout_pending` tells.
use polar_wg_app.Common.{
  ℕ, zero, suc, ◌+◌, ◌^◌, ◌≤◌, ◌<◌, ◌≡◌, refl, true, some, List, [], ◌∷◌, get_elem?, arith, ◌∙◌,
}
use polar_wg_app.Callout.{
  Callout, callout_init, callout_pending, callout_stop, callout_reset, delete_at, block_begin,
  block_finish, Op, op_reset, op_stop, op_begin, op_finish, apply, apply_all, bumped,
}

-- All the tokens are at most `n`.
unfoldable pub Upto : ℕ → List ℕ → Type 0
Upto n [] = Unit {0}
Upto n (t ∷ ts) = (t ≤ n) × Upto n ts

-- No token of a block is beyond `n`.
pub record Within (n : ℕ) (c : Callout) : Type 0 where
  pub queued : Upto n c.queued
  pub locking : Upto n c.locking

delete_at-Upto : (n : ℕ) (xs : List ℕ) (i : ℕ) → Upto n xs → Upto n (delete_at xs i)
unfolding Upto
delete_at-Upto n [] i h = h
delete_at-Upto n (x ∷ xs) zero h = h.1
delete_at-Upto n (x ∷ xs) (suc i) h = (h.0, delete_at-Upto n xs i h.1)

get-Upto : (n : ℕ) (xs : List ℕ) (i : ℕ) {t : ℕ} → Upto n xs → get_elem? xs i ≡ some t → t ≤ n
unfolding Upto
get-Upto n [] i h e = ground arith
get-Upto n (x ∷ xs) zero h e = ground arith
get-Upto n (x ∷ xs) (suc i) h e = get-Upto n xs i h.1 e

weaken-Upto : (n : ℕ) (xs : List ℕ) → Upto n xs → Upto (n + 1) xs
unfolding Upto
weaken-Upto n [] h = tt
weaken-Upto n (x ∷ xs) h = (omega (arith, h.0), weaken-Upto n xs h.1)

-- A step of a block.
pub data Block : Type 0 where
  begins finishes : ℕ → Block

abbrev pub block_op : Block → Op
block_op (begins i) = op_begin i
block_op (finishes i) = op_finish i

unfoldable pub run_blocks : List Block → Callout → Callout
run_blocks [] c = c
run_blocks (b ∷ bs) c = run_blocks bs (apply (block_op b) c)

cons-Upto : (n t : ℕ) (xs : List ℕ) → t ≤ n → Upto n xs → Upto n (t ∷ xs)
unfolding Upto
cons-Upto n t xs h k = (h, k)

-- A step of a block keeps the generation and the bound on the tokens, and runs nothing if the
-- tokens are below the generation.
block-Within :
    (b : Block) (n : ℕ) (c : Callout)
    → Within n c
    → let c' = apply (block_op b) c in
      Within n c' × (c'.generation ≡ c.generation) × (n < c.generation → c'.ran ≡ c.ran)
unfolding apply block_begin block_finish
block-Within (begins i) n c w = (
  record { queued = grind (arith, delete_at-Upto); locking = grind (arith, get-Upto, cons-Upto) },
  ground arith,
  λ h. ground arith,
)
block-Within (finishes i) n c w = (
  record { queued = ground arith; locking = grind (arith, delete_at-Upto) },
  ground arith,
  λ h. grind (arith, get-Upto),
)

run_blocks-ran :
    (bs : List Block) (n : ℕ) (c : Callout)
    → Within n c
    → n < c.generation
    → (run_blocks bs c).ran ≡ c.ran
unfolding run_blocks
run_blocks-ran [] n c w h = refl
run_blocks-ran (b ∷ bs) n c w h =
    let (w', g, r) = block-Within b n c w in run_blocks-ran bs n _ w' (omega (arith, g)) ∙ r h

bumped-lem : (c : Callout) → c.generation + 1 < 2 ^ 32 → bumped c ≡ c.generation + 1
bumped-lem c h = omega arith

-- How often an operation adds to the generation: a reset and a stop do once, the steps of blocks never.
abbrev pub bumps : Op → ℕ
bumps op_reset = 1
bumps op_stop = 1
bumps (op_begin i) = 0
bumps (op_finish i) = 0

-- The resets and stops among the operations.
unfoldable pub total_bumps : List Op → ℕ
total_bumps [] = 0
total_bumps (o ∷ os) = bumps o + total_bumps os

-- The tokens never go beyond the generation, which grows by at most one.
apply-Within :
    (o : Op) (c : Callout)
    → Within c.generation c
    → c.generation + bumps o < 2 ^ 32
    → let c' = apply o c in Within c'.generation c' × (c'.generation ≡ c.generation + bumps o)
unfolding apply callout_reset callout_stop block_begin block_finish
apply-Within op_reset c w h =
    let g = c.generation in
    (
      rw (bumped-lem c h) record {
        queued = cons-Upto (g + 1) (g + 1) c.queued (omega arith) (weaken-Upto g c.queued w.queued);
        locking = weaken-Upto g c.locking w.locking;
      },
      bumped-lem c h,
    )
apply-Within op_stop c w h =
    let g = c.generation in
    (
      rw (bumped-lem c h) record {
        queued = weaken-Upto g c.queued w.queued;
        locking = weaken-Upto g c.locking w.locking;
      },
      bumped-lem c h,
    )
apply-Within (op_begin i) c w h =
    let (w', g, r) = block-Within (begins i) c.generation c w in (rw g w', omega (arith, g))
apply-Within (op_finish i) c w h =
    let (w', g, r) = block-Within (finishes i) c.generation c w in (rw g w', omega (arith, g))

apply_all-Within :
    (os : List Op) (c : Callout)
    → Within c.generation c
    → c.generation + total_bumps os < 2 ^ 32
    → let c' = apply_all os c in
      Within c'.generation c' × (c'.generation ≡ c.generation + total_bumps os)
unfolding apply_all total_bumps
apply_all-Within [] c w h = (w, omega arith)
apply_all-Within (o ∷ os) c w h =
    let (w1, up) = apply-Within o c w (omega arith) in
    let (w2, up2) = apply_all-Within os (apply o c) w1 (omega (arith, up)) in
    (w2, omega (arith, up, up2))

init-Within : Within callout_init.generation callout_init
unfolding callout_init Upto
init-Within = record { queued = tt; locking = tt }

-- After `callout_stop` no block that is queued or that waits for the lock calls its function, in
-- whatever order the blocks go on, as long as the callout was reset and stopped fewer than 2 ^ 32 - 1
-- times before, however many steps its blocks took.
pub stop-cancels :
    (os : List Op) (bs : List Block)
    → total_bumps os + 1 < 2 ^ 32
    → let c = callout_stop (apply_all os callout_init) in (run_blocks bs c).ran ≡ c.ran
unfolding callout_stop callout_init
stop-cancels os bs h =
    let c = apply_all os callout_init in
    let (w, up) = apply_all-Within os callout_init init-Within (omega arith) in
    run_blocks-ran bs c.generation _ (record { queued = w.queued; locking = w.locking })
      (omega (arith, bumped-lem c (omega (arith, up))))

-- From a fresh callout, whatever was done before it was reset and since, `callout_pending` says that it is
-- pending, whether it has fired, was stopped or waits, as long as it was reset and stopped fewer than
-- 2 ^ 32 times in all.
pub pending-stays :
    (before after : List Op)
    → total_bumps before + 1 + total_bumps after < 2 ^ 32
    → callout_pending (apply_all after (callout_reset (apply_all before callout_init))) ≡ true
unfolding callout_pending callout_reset callout_init apply
pending-stays before after h =
    let c = apply_all before callout_init in
    let (w, up) = apply_all-Within before callout_init init-Within (omega arith) in
    let (w1, up1) = apply-Within op_reset c w (omega (arith, up)) in
    let (_, up2) = apply_all-Within after (callout_reset c) w1 (omega (arith, up, up1)) in
    ground (arith, up, up1, up2)
