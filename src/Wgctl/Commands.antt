-- ===== src/Wgctl/Commands.antt =====
-- The commands of src/wgctl.c that change something or make keys: `cmd_genkey`, `cmd_pubkey`,
-- `cmd_genpsk`, `cmd_up` and `cmd_down`, with `read_pid`.
pub mod KeyPipe
pub mod Start
pub mod Stop
use polar_wg_app.Common.{
  ℕ, zero, suc, Bool, true, false, not, Option, none, some, List, [], ◌∷◌, ◌++◌, ℤ, pos, negsuc,
  ltb, ◌==◌, if◌then◌else◌, length, take, is_positive, to_ℕ,
}
use polar_wg_app.Common.Texts.{codes}
use polar_wg_app.Text.{c_string, drop_trailing}
use polar_wg_app.Wgctl.{b64_encode_32, b64_decode_32, validate_iface, Paths, make_paths}

-- How `kill` ends: it is done, there is no such process (ESRCH), or any other error.
pub data Killed : Type 0 where
  done : Killed
  no_process : Killed
  denied : Killed

-- The system's calls and those of libswift_crypto, over the state `W` of all of these. `fgets` gives at
-- most 127 bytes of the next line of the input, `fscanf` the number at the start of a file, `none` if it cannot be
-- opened or has none, `unlink` whether it returns 0 or finds no such file, and `execl` whether it replaces
-- the process.
pub record System (W : Type 0) : Type 0 where
  pub generate_secret : W → List ℕ × W
  pub clamp_secret : List ℕ → List ℕ
  pub generate_public : List ℕ → Option (List ℕ)
  pub getentropy : ℕ → W → Option (List ℕ) × W
  pub fgets : ℕ → W → Option (List ℕ) × W
  pub geteuid : W → ℕ
  pub exists : List ℕ → W → Bool
  pub fscanf : List ℕ → W → Option ℤ
  pub kill : ℕ → ℕ → W → Killed × W
  pub nanosleep : W → W
  pub unlink : List ℕ → W → Bool × W
  pub execl : List (List ℕ) → W → Bool

-- How a command ends: with an exit code, or as another program with its arguments.
pub data Exit : Type 0 where
  code : ℕ → Exit
  became : List (List ℕ) → Exit

-- The state of the system, and the lines printed, the last one first.
pub record Shell (W : Type 0) : Type 0 where
  pub world : W
  pub printed : List (List ℕ)

abbrev pub wg_core_bin : List ℕ
wg_core_bin = codes "/usr/local/bin/wg_core"

abbrev pub sigkill : ℕ
sigkill = 9

abbrev pub sigterm : ℕ
sigterm = 15

module _ {W : Type 0} (S : System W) where
  abbrev pub print_line : List ℕ → W → Shell W → Shell W
  print_line text w s = record { world = w; printed = text ∷ s.printed }

  -- `cmd_genkey`
  unfoldable pub cmd_genkey : Shell W → Exit × Shell W
  cmd_genkey s =
      let (sk, w) = S.generate_secret s.world in
      (code 0, print_line (b64_encode_32 (S.clamp_secret sk)) w s)

  -- The line without what ends it, in `cmd_pubkey`.
  unfoldable pub line_text : List ℕ → List ℕ
  line_text line = drop_trailing (c_string line)

  unfoldable pub print_public : Option (List ℕ) → Shell W → Exit × Shell W
  print_public none s = (code 1, s)
  print_public (some pk) s = (code 0, print_line (b64_encode_32 pk) s.world s)

  unfoldable pub derive : Option (List ℕ) → Shell W → Exit × Shell W
  derive none s = (code 1, s)
  derive (some sk) s = print_public (S.generate_public sk) s

  unfoldable pub read_key : Option (List ℕ) → Shell W → Exit × Shell W
  read_key none s = (code 1, s)
  read_key (some line) s = derive (b64_decode_32 (line_text line)) s

  -- `cmd_pubkey`
  unfoldable pub cmd_pubkey : Shell W → Exit × Shell W
  cmd_pubkey s = let (line, w) = S.fgets 128 s.world in read_key line (record s { world = w })

  unfoldable pub print_psk : Option (List ℕ) → Shell W → Exit × Shell W
  print_psk none s = (code 1, s)
  print_psk (some psk) s = (code 0, print_line (b64_encode_32 psk) s.world s)

  -- `cmd_genpsk`
  unfoldable pub cmd_genpsk : Shell W → Exit × Shell W
  cmd_genpsk s = let (psk, w) = S.getentropy 32 s.world in print_psk psk (record s { world = w })

  -- `read_pid`, with `none` for -1.
  unfoldable pub read_pid : List ℕ → W → Option ℕ
  read_pid path w = elim (S.fscanf path w) [
    | none ↦ none
    | some pid ↦ if is_positive pid then some (to_ℕ pid) else none
  ]

  abbrev pub core_args : List ℕ → List (List ℕ)
  core_args iface =
      codes "wg_core"
      ∷ codes "--tunnel"
      ∷ codes "--logical-name"
      ∷ iface
      ∷ (make_paths iface).conf
      ∷ []

  -- The end of `cmd_up`: `execl`, which returns only if it fails.
  unfoldable pub start_core : List ℕ → Shell W → Exit × Shell W
  start_core iface s =
      if not (S.exists wg_core_bin s.world)
      then (code 1, s)
      else if S.execl (wg_core_bin ∷ core_args iface) s.world
      then (became (wg_core_bin ∷ core_args iface), s)
      else (code 127, s)

  -- What `kill` with signal 0 says of the process that the pid file names.
  unfoldable pub probed : List ℕ → Killed → Shell W → Exit × Shell W
  probed iface done s = (code 1, s)
  probed iface no_process s = start_core iface s
  probed iface denied s = start_core iface s

  unfoldable pub unless_alive : List ℕ → Option ℕ → Shell W → Exit × Shell W
  unless_alive iface none s = start_core iface s
  unless_alive iface (some pid) s =
      let (r, w) = S.kill pid 0 s.world in probed iface r (record s { world = w })

  -- `cmd_up`
  unfoldable pub cmd_up : List (List ℕ) → Shell W → Exit × Shell W
  cmd_up [] s = (code 1, s)
  cmd_up (iface ∷ args) s =
      let p = make_paths iface in
      if not (validate_iface iface)
      then (code 1, s)
      else if not (S.geteuid s.world == 0)
      then (code 1, s)
      else if not (S.exists p.conf s.world)
      then (code 1, s)
      else if S.exists p.pidp s.world
      then unless_alive iface (read_pid p.pidp s.world) s
      else start_core iface s

  unfoldable pub unlink_all : Paths → W → W
  unlink_all p w = (S.unlink p.sockp (S.unlink p.namep (S.unlink p.pidp w).1).1).1

  -- The loop that waits for the process to end, at most `n` times.
  unfoldable pub await_exit : ℕ → ℕ → W → W
  await_exit zero pid w = w
  await_exit (suc n) pid w =
      let (r, w1) = S.kill pid 0 w in
      elim r [
        | done ↦ await_exit n pid (S.nanosleep w1)
        | no_process ↦ w1
        | denied ↦ await_exit n pid (S.nanosleep w1)
      ]

  -- SIGKILL for a process that is still alive.
  unfoldable pub force_exit : ℕ → W → W
  force_exit pid w =
      let (r, w1) = S.kill pid 0 w in
      elim r [ done ↦ (S.kill pid sigkill w1).1 | no_process ↦ w1 | denied ↦ w1 ]

  -- `cmd_down` once the process was sent SIGTERM.
  unfoldable pub finish_down : Paths → ℕ → Shell W → Exit × Shell W
  finish_down p pid s =
      (code 0, record s { world = unlink_all p (force_exit pid (await_exit 30 pid s.world)) })

  unfoldable pub stop_process : Paths → Option ℕ → Shell W → Exit × Shell W
  stop_process p none s = (code 1, record s { world = unlink_all p s.world })
  stop_process p (some pid) s =
      let (r, w) = S.kill pid sigterm s.world in
      elim r [
        | done ↦ finish_down p pid (record s { world = w })
        | no_process ↦ finish_down p pid (record s { world = w })
        | denied ↦ (code 1, record s { world = w })
      ]

  -- `cmd_down`, without the line that it prints.
  unfoldable pub cmd_down : List (List ℕ) → Shell W → Exit × Shell W
  cmd_down [] s = (code 1, s)
  cmd_down (iface ∷ args) s =
      let p = make_paths iface in
      if not (validate_iface iface)
      then (code 1, s)
      else if not (S.geteuid s.world == 0)
      then (code 1, s)
      else stop_process p (read_pid p.pidp s.world) s
