-- ===== src/Wgctl/Commands/Stop.antt =====
-- What `cmd_down` of src/wgctl.c leaves behind.
use polar_wg_app.Common.{
  ℕ, ◌≡◌, ◌≢◌, ◌⊎◌, inl, inr, Bool, Bool-cases, true, false, Option, none, some, List, ◌∷◌, arith,
}
use polar_wg_app.Wgctl.{validate_iface, Paths, make_paths}
use polar_wg_app.Wgctl.Commands.{
  done, no_process, denied, System, code, Shell, sigkill, read_pid, unlink_all, force_exit,
  finish_down, stop_process, cmd_down,
}

-- A system as root sees it, where `lives pid w` is that the process is there and has no SIGKILL pending: root
-- may send signals to all, `kill` says that there is no process only if this is so, SIGKILL counts as soon
-- as it is sent, and none whose number was not in use comes back. `refused f w` is that an `unlink` of `f` has
-- failed by then, other than for want of the file: one that has not leaves no such file, and no `unlink`
-- makes a file.
pub record IsUnix {W : Type 0} (S : System W) (lives : ℕ → W → Bool) (refused : List ℕ → W → Bool)
    : Type 0 where
  pub allowed : (pid sig : ℕ) (w : W) → (S.kill pid sig w).0 ≢ denied
  pub ended :
      (pid sig : ℕ) (w : W)
      → (S.kill pid sig w).0 ≡ no_process
      → lives pid (S.kill pid sig w).1 ≡ false
  pub killed :
      (pid : ℕ) (w : W)
      → (S.kill pid sigkill w).0 ≡ done
      → lives pid (S.kill pid sigkill w).1 ≡ false
  pub unlink_keeps :
      (p : ℕ) (f : List ℕ) (w : W) → lives p w ≡ false → lives p (S.unlink f w).1 ≡ false
  pub unlinked :
      (f : List ℕ) (w : W) → (S.unlink f w).0 ≡ true → S.exists f (S.unlink f w).1 ≡ false
  pub not_unlinked :
      (f : List ℕ) (w : W) → (S.unlink f w).0 ≡ false → refused f (S.unlink f w).1 ≡ true
  pub stays_unlinked :
      (f g : List ℕ) (w : W) → S.exists f w ≡ false → S.exists f (S.unlink g w).1 ≡ false
  pub stays_refused :
      (f g : List ℕ) (w : W) → refused f w ≡ true → refused f (S.unlink g w).1 ≡ true

module _ {W : Type 0} (S : System W) (lives : ℕ → W → Bool) (refused : List ℕ → W → Bool)
    (unix : IsUnix S lives refused) where
  force_exit-dead : (pid : ℕ) (w : W) → lives pid (force_exit S pid w) ≡ false
  unfolding force_exit
  force_exit-dead pid w = grind (arith, unix.allowed, unix.ended, unix.killed)

  -- The file is gone, or could not be removed.
  abbrev pub IsGone : List ℕ → W → Type 0
  IsGone f w = (S.exists f w ≡ false) ⊎ (refused f w ≡ true)

  abbrev pub AreGone : Paths → W → Type 0
  AreGone p w = IsGone p.pidp w × IsGone p.namep w × IsGone p.sockp w

  unlink-IsGone : (f : List ℕ) (w : W) → IsGone f (S.unlink f w).1
  unlink-IsGone f w = elim (Bool-cases (S.unlink f w).0) [
    | inl e ↦ inl (unix.unlinked f w e)
    | inr e ↦ inr (unix.not_unlinked f w e)
  ]

  unlink_keeps-IsGone : (f g : List ℕ) (w : W) → IsGone f w → IsGone f (S.unlink g w).1
  unlink_keeps-IsGone f g w (inl e) = inl (unix.stays_unlinked f g w e)
  unlink_keeps-IsGone f g w (inr e) = inr (unix.stays_refused f g w e)

  unlink_all-AreGone : (p : Paths) (w : W) → AreGone p (unlink_all S p w)
  unfolding unlink_all
  unlink_all-AreGone p w =
      let w1 = (S.unlink p.pidp w).1 in
      let w2 = (S.unlink p.namep w1).1 in
      (
        unlink_keeps-IsGone p.pidp p.sockp w2
            (unlink_keeps-IsGone p.pidp p.namep w1 (unlink-IsGone p.pidp w)),
        unlink_keeps-IsGone p.namep p.sockp w2 (unlink-IsGone p.namep w1),
        unlink-IsGone p.sockp w2,
      )

  unlink_all-dead :
      (pid : ℕ) (p : Paths) (w : W) → lives pid w ≡ false → lives pid (unlink_all S p w) ≡ false
  unfolding unlink_all
  unlink_all-dead pid p w e = grind (arith, unix.unlink_keeps)

  -- The process of the pid file is gone or was sent SIGKILL.
  abbrev pub IsStopped : Option ℕ → W → Type 0
  IsStopped none w = ⊥
  IsStopped (some pid) w = lives pid w ≡ false

  stop_process-IsStopped :
      (p : Paths) (o : Option ℕ) (s : Shell W)
      → (stop_process S p o s).0 ≡ code 0
      → IsStopped o (stop_process S p o s).1.world × AreGone p (stop_process S p o s).1.world
  unfolding stop_process finish_down
  stop_process-IsStopped p none s e = cc
  stop_process-IsStopped p (some pid) s e =
      (grind (arith, force_exit-dead, unlink_all-dead), grind (arith, unlink_all-AreGone))

  -- If `cmd_down` returns 0, the name is valid, the process that the pid file named is gone or was sent
  -- SIGKILL, and the pid file, the name file and the socket of the interface are gone, each unless an `unlink`
  -- of it failed.
  pub cmd_down-Stops :
      (iface : List ℕ) (args : List (List ℕ)) (s : Shell W)
      → (cmd_down S (iface ∷ args) s).0 ≡ code 0
      → let p = make_paths iface in
        let w = (cmd_down S (iface ∷ args) s).1.world in
        (validate_iface iface ≡ true) × IsStopped (read_pid S p.pidp s.world) w × AreGone p w
  unfolding cmd_down
  cmd_down-Stops iface args s e = grind (arith, stop_process-IsStopped)
