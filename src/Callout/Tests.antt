-- ===== src/Callout/Tests.antt =====
-- Tests of src/macos_stubs/sys/callout.h.
use polar_wg_app.Common.{◌≡◌, true, [], ◌∷◌, arith, refl}
use polar_wg_app.Callout.{
  callout_init, callout_pending, callout_stop, callout_reset, op_reset, op_stop, op_begin,
  op_finish, apply, apply_all, block_begin, block_finish,
}
use polar_wg_app.Callout.Cancel.{finishes, run_blocks, total_bumps, stop-cancels, pending-stays}

-- A block that nothing cancels runs.
fired_once : (apply_all (op_reset ∷ op_begin 0 ∷ op_finish 0 ∷ []) callout_init).ran ≡ 1 ∷ []
unfolding apply_all apply callout_init callout_reset block_begin block_finish
fired_once = refl

-- Stopped between the two tests of its block, the callout does not run.
stop-cancels_example :
    let c = callout_stop (apply_all (op_reset ∷ op_begin 0 ∷ []) callout_init) in
    (run_blocks (finishes 0 ∷ []) c).ran ≡ c.ran
unfolding total_bumps
stop-cancels_example = stop-cancels (op_reset ∷ op_begin 0 ∷ []) (finishes 0 ∷ []) (omega arith)

-- It was stopped before, has fired since, and is still called pending.
pending-stays_example :
    callout_pending (
      apply_all
        (op_begin 0 ∷ op_finish 0 ∷ [])
        (callout_reset (apply_all (op_stop ∷ []) callout_init)))
    ≡ true
unfolding total_bumps
pending-stays_example = pending-stays (op_stop ∷ []) (op_begin 0 ∷ op_finish 0 ∷ []) (omega arith)
