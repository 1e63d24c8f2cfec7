-- ===== src/Callout.antt =====
-- src/macos_stubs/sys/callout.h: the timer that the rate limiter of wg_cookie.c uses, as it works
-- with Grand Central Dispatch. A step of a block on the queue is an operation of its own, so a
-- sequence of operations is an interleaving.
pub mod Cancel
mod Tests
use polar_wg_app.Common.{
  ℕ, zero, suc, ◌+◌, ◌%◌, ◌^◌, Bool, true, false, not, Option, none, some, List, [], ◌∷◌, ◌==◌,
  if◌then◌else◌, get_elem?,
}

-- `queued` holds the tokens of the blocks that have not begun, `locking` of those that passed the
-- first test and wait for the lock, and `ran` of those that called the function, the newest first.
pub record Callout : Type 0 where
  pub generation : ℕ
  pub queued : List ℕ
  pub locking : List ℕ
  pub ran : List ℕ

-- `callout_init_mtx`
unfoldable pub callout_init : Callout
callout_init = record { generation = 0; queued = []; locking = []; ran = [] }

-- `callout_pending`
unfoldable pub callout_pending : Callout → Bool
callout_pending c = not (c.generation == 0)

-- An atomic addition to the `int`, read without its sign.
abbrev pub bumped : Callout → ℕ
bumped c = (c.generation + 1) % 2 ^ 32

-- `callout_stop`
unfoldable pub callout_stop : Callout → Callout
callout_stop c = record c { generation = bumped c }

-- `callout_reset`
unfoldable pub callout_reset : Callout → Callout
callout_reset c = record c { generation = bumped c; queued = bumped c ∷ c.queued }

abbrev pub delete_at : List ℕ → ℕ → List ℕ
delete_at [] i = []
delete_at (x ∷ xs) zero = xs
delete_at (x ∷ xs) (suc i) = x ∷ delete_at xs i

-- A block begins: its test before the lock.
unfoldable pub block_begin : ℕ → Callout → Callout
block_begin i c = elim (get_elem? c.queued i) [
  | none ↦ c
  | some t ↦
      let rest = delete_at c.queued i in
      if t == c.generation
      then record c { queued = rest; locking = t ∷ c.locking }
      else record c { queued = rest }
]

-- It has the lock: the test under it, and the call.
unfoldable pub block_finish : ℕ → Callout → Callout
block_finish i c = elim (get_elem? c.locking i) [
  | none ↦ c
  | some t ↦
      let rest = delete_at c.locking i in
      if t == c.generation
      then record c { locking = rest; ran = t ∷ c.ran }
      else record c { locking = rest }
]

pub data Op : Type 0 where
  op_reset op_stop : Op
  op_begin op_finish : ℕ → Op

unfoldable pub apply : Op → Callout → Callout
apply op_reset c = callout_reset c
apply op_stop c = callout_stop c
apply (op_begin i) c = block_begin i c
apply (op_finish i) c = block_finish i c

-- The operations in order.
unfoldable pub apply_all : List Op → Callout → Callout
apply_all [] c = c
apply_all (o ∷ os) c = apply_all os (apply o c)
