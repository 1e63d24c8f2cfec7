-- ===== src/Wgctl/Commands/Start.antt =====
-- When `cmd_up` of src/wgctl.c starts the tunnel.
use polar_wg_app.Common.{
  ℕ, ◌≡◌, ◌≢◌, refl, true, not, Option, none, some, List, [], ◌∷◌, ◌++◌, ap, ◌==◌, ◌⊎◌, inl, inr,
  if-cases, arith,
}
use polar_wg_app.Common.Texts.{codes}
use polar_wg_app.Wgctl.{validate_iface, make_paths}
use polar_wg_app.Wgctl.Files.{path-whole}
use polar_wg_app.Wgctl.Commands.{
  Killed, done, no_process, denied, System, Exit, code, became, Shell, wg_core_bin, core_args,
  read_pid, start_core, probed, unless_alive, cmd_up,
}

-- The program and its arguments, the first of them its name.
abbrev pub core_command : List ℕ → List (List ℕ)
core_command iface =
    codes "/usr/local/bin/wg_core"
    ∷ codes "wg_core"
    ∷ codes "--tunnel"
    ∷ codes "--logical-name"
    ∷ iface
    ∷ (codes "/etc/wireguard/" ++ iface ++ codes ".conf")
    ∷ []

module _ {W : Type 0} (S : System W) where
  -- `kill` with signal 0 does not succeed on the process that the pid file of the interface names.
  abbrev pub NotRunning : List ℕ → W → Type 0
  NotRunning iface w =
      (pid : ℕ)
      → S.exists (make_paths iface).pidp w ≡ true
      → read_pid S (make_paths iface).pidp w ≡ some pid
      → (S.kill pid 0 w).0 ≢ done

  -- The program that is started is wg_core for the interface and its configuration, and a command that
  -- comes back has failed.
  abbrev pub Starts : List ℕ → W → Exit → Type 0
  Starts iface w (code n) = (n ≡ 1) ⊎ (n ≡ 127)
  Starts iface w (became args) =
      (validate_iface iface ≡ true)
      × (S.geteuid w ≡ 0)
      × (S.exists (make_paths iface).conf w ≡ true)
      × NotRunning iface w
      × (args ≡ core_command iface)

  core_args-core_command :
      (iface : List ℕ)
      → validate_iface iface ≡ true
      → wg_core_bin ∷ core_args S iface ≡ core_command iface
  unfolding make_paths
  core_args-core_command iface v =
      ap
        (λ conf.
          wg_core_bin
          ∷ codes "wg_core"
          ∷ codes "--tunnel"
          ∷ codes "--logical-name"
          ∷ iface
          ∷ conf
          ∷ [])
        (path-whole (codes "/etc/wireguard") iface (codes ".conf") v (omega arith))

  start_core-Starts :
      (iface : List ℕ) (w : W) (s : Shell W)
      → validate_iface iface ≡ true
      → S.geteuid w ≡ 0
      → S.exists (make_paths iface).conf w ≡ true
      → NotRunning iface w
      → Starts iface w (start_core S iface s).0
  unfolding start_core
  start_core-Starts iface w s valid root conf idle =
      if-cases (λ (r : Exit × Shell W). Starts iface w r.0) (not (S.exists wg_core_bin s.world))
        (λ _. inl refl)
        (λ _.
          if-cases (λ (r : Exit × Shell W). Starts iface w r.0)
            (S.execl (wg_core_bin ∷ core_args S iface) s.world)
            (λ _. (valid, root, conf, idle, core_args-core_command iface valid)) (λ _. inr refl))

  unless_alive-Starts :
      (iface : List ℕ) (o : Option ℕ) (s : Shell W)
      → validate_iface iface ≡ true
      → S.geteuid s.world ≡ 0
      → S.exists (make_paths iface).conf s.world ≡ true
      → read_pid S (make_paths iface).pidp s.world ≡ o
      → Starts iface s.world (unless_alive S iface o s).0
  unfolding unless_alive probed
  unless_alive-Starts iface none s valid root conf e =
      start_core-Starts iface s.world s valid root conf (λ pid _ named _. grind arith)
  unless_alive-Starts iface (some pid) s valid root conf e =
      let (r, w) = S.kill pid 0 s.world in asked r w refl
    where
      asked :
          (r : Killed) (w : W)
          → (S.kill pid 0 s.world).0 ≡ r
          → Starts iface s.world (probed S iface r (record s { world = w })).0
      asked done w k = inl refl
      asked no_process w k =
          start_core-Starts iface s.world (record s { world = w }) valid root conf
            (λ q _ named alive. grind arith)
      asked denied w k =
          start_core-Starts iface s.world (record s { world = w }) valid root conf
            (λ q _ named alive. grind arith)

  -- Whenever `cmd_up` becomes another program, this is /usr/local/bin/wg_core with the arguments --tunnel,
  -- --logical-name, the name of the interface and /etc/wireguard/<name>.conf; the name is valid, the user is
  -- root, this configuration exists, and either there is no pid file with a process number in it, or `kill`
  -- with signal 0 fails on that process. If `cmd_up` comes back, it does so with exit code 1 or 127.
  pub cmd_up-Starts :
      (iface : List ℕ) (args : List (List ℕ)) (s : Shell W)
      → Starts iface s.world (cmd_up S (iface ∷ args) s).0
  unfolding cmd_up
  cmd_up-Starts iface args s =
      let p = make_paths iface in
      let P = λ (r : Exit × Shell W). Starts iface s.world r.0 in
      if-cases P (not (validate_iface iface)) (λ _. inl refl)
        (λ valid.
          if-cases P (not (S.geteuid s.world == 0)) (λ _. inl refl)
            (λ root.
              if-cases P (not (S.exists p.conf s.world)) (λ _. inl refl)
                (λ conf.
                  if-cases P (S.exists p.pidp s.world)
                    (λ _.
                      unless_alive-Starts iface (read_pid S p.pidp s.world) s (ground arith)
                        (ground arith) (ground arith) refl)
                    (λ none_there.
                      start_core-Starts iface s.world s (ground arith) (ground arith) (ground arith)
                        (λ pid there _ _. grind arith)))))
