-- ===== src/Wgctl/Show.antt =====
-- The rest of src/wgctl.c: `dump_one`, `dump_all`, `cmd_show` and `main`.
pub mod Descriptors
use polar_wg_app.Common.{
  ℕ, ◌+◌, ◌-◌, Bool, true, false, not, ◌&&◌, ◌||◌, Option, none, some, List, [], ◌∷◌, ◌++◌, ltb,
  leb, ◌==◌, if◌then◌else◌, length, take, drop, list_eq,
}
use polar_wg_app.Common.Texts.{codes}
use polar_wg_app.Session.Report.{decimal}
use polar_wg_app.Wgctl.{validate_iface, Paths, make_paths}
use polar_wg_app.Wgctl.Commands.{
  Killed, done, no_process, denied, System, Exit, code, became, Shell, print_line, read_pid,
  cmd_genkey, cmd_pubkey, cmd_genpsk, cmd_up, cmd_down,
}

-- How `opendir` ends: with the directory, because there is none (ENOENT), or with any other error.
pub data Opened : Type 0 where
  opened : Opened
  missing : Opened
  refused : Opened

-- More calls of the system. `chunks` is what `read` gives, call by call, until it gives nothing or fails,
-- `write` how many bytes were written, `none` for an error, and `entries` the names that `readdir` gives.
pub record Streams (W : Type 0) : Type 0 where
  pub sun_path_size : ℕ
  pub socket : W → Option ℕ × W
  pub connect : ℕ → List ℕ → W → Bool × W
  pub chunks : ℕ → W → List (List ℕ)
  pub write : List ℕ → W → Option ℕ × W
  pub close : ℕ → W → W
  pub opendir : W → Opened × W
  pub entries : W → List (List ℕ)
  pub closedir : W → W

-- All bytes were written, and what was.
abbrev pub is_whole : List ℕ → Option ℕ → Bool
is_whole c none = false
is_whole c (some n) = n == length c

abbrev pub shown : List ℕ → Option ℕ → List ℕ
shown c none = []
shown c (some n) = take n c

-- The names of the directory that are passed over.
unfoldable pub is_skipped : List ℕ → Bool
is_skipped name =
    let n = length name in
    (ltb n 5 || not (list_eq (drop (n - 4) name) (codes ".pid"))) || leb 64 (n - 4)

module _ {W : Type 0} (S : System W) (D : Streams W) where
  -- The loop that copies what the socket gives to the output.
  unfoldable pub drain : List (List ℕ) → Shell W → Shell W
  drain [] s = s
  drain (c ∷ cs) s =
      let (r, w) = D.write c s.world in
      let s1 = print_line S (shown c r) w s in
      let rest = drain cs s1 in if is_whole c r then rest else s1

  abbrev pub shut : ℕ → Shell W → Shell W
  shut fd s = record s { world = D.close fd s.world }

  -- `dump_one` once `connect` has come back.
  unfoldable pub when_connected : ℕ → Bool → Shell W → Exit × Shell W
  when_connected fd true s = (code 0, shut fd (drain (D.chunks fd s.world) s))
  when_connected fd false s = (code 1, shut fd s)

  unfoldable pub dial : List ℕ → Option ℕ → Shell W → Exit × Shell W
  dial iface none s = (code 1, s)
  dial iface (some fd) s =
      let path = take (D.sun_path_size - 1) (make_paths iface).sockp in
      let (up, w) = D.connect fd path s.world in when_connected fd up (record s { world = w })

  unfoldable pub dump_socket : List ℕ → Shell W → Exit × Shell W
  dump_socket iface s = let (fd, w) = D.socket s.world in dial iface fd (record s { world = w })

  -- `dump_one` with what `kill` says of the process.
  unfoldable pub dump_probed : List ℕ → ℕ → Killed → Shell W → Exit × Shell W
  dump_probed iface pid done s = dump_socket iface s
  dump_probed iface pid no_process s =
      let text =
        codes "interface: " ++ iface ++ codes "  (stale pid file: " ++ decimal pid ++ codes ")" in
      (code 0, print_line S text s.world s)
  dump_probed iface pid denied s = dump_socket iface s

  unfoldable pub dump_pid : List ℕ → Option ℕ → Shell W → Exit × Shell W
  dump_pid iface none s =
      (code 0, print_line S (codes "interface: " ++ iface ++ codes "  (not running)") s.world s)
  dump_pid iface (some pid) s =
      let (r, w) = S.kill pid 0 s.world in dump_probed iface pid r (record s { world = w })

  -- `dump_one`
  unfoldable pub dump_one : List ℕ → Shell W → Exit × Shell W
  dump_one iface s = dump_pid iface (read_pid S (make_paths iface).pidp s.world) s

  -- One round of the loop of `dump_all`, which also says whether an interface was dumped so far.
  unfoldable pub dump_entry : List ℕ → Bool → Shell W → Bool × Shell W
  dump_entry name any s =
      if is_skipped name
      then (any, s)
      else let s1 = if any then print_line S [] s.world s else s in
        (true, (dump_one (take (length name - 4) name) s1).1)

  unfoldable pub dump_entries : List (List ℕ) → Bool → Shell W → Bool × Shell W
  dump_entries [] any s = (any, s)
  dump_entries (name ∷ names) any s =
      let (any1, s1) = dump_entry name any s in dump_entries names any1 s1

  abbrev pub none_running : Shell W → Shell W
  none_running s = print_line S (codes "(no interfaces running)") s.world s

  unfoldable pub dump_dir : Opened → Shell W → Exit × Shell W
  dump_dir opened s =
      let (any, s1) = dump_entries (D.entries s.world) false s in
      let s2 = record s1 { world = D.closedir s1.world } in
      (code 0, if any then s2 else none_running s2)
  dump_dir missing s = (code 0, none_running s)
  dump_dir refused s = (code 1, s)

  -- `dump_all`
  unfoldable pub dump_all : Shell W → Exit × Shell W
  dump_all s = let (o, w) = D.opendir s.world in dump_dir o (record s { world = w })

  -- `cmd_show`
  unfoldable pub cmd_show : List (List ℕ) → Shell W → Exit × Shell W
  cmd_show [] s = dump_all s
  cmd_show (iface ∷ args) s = if not (validate_iface iface) then (code 1, s) else dump_one iface s

  -- `main`, on the arguments after the name of the program.
  unfoldable pub main : List (List ℕ) → Shell W → Exit × Shell W
  main [] s = (code 1, s)
  main (cmd ∷ args) s =
      if list_eq cmd (codes "genkey")
      then cmd_genkey S s
      else if list_eq cmd (codes "pubkey")
      then cmd_pubkey S s
      else if list_eq cmd (codes "genpsk")
      then cmd_genpsk S s
      else if list_eq cmd (codes "up")
      then cmd_up S args s
      else if list_eq cmd (codes "down")
      then cmd_down S args s
      else if list_eq cmd (codes "show")
      then cmd_show args s
      else if list_eq cmd (codes "-h")
          || (list_eq cmd (codes "--help") || list_eq cmd (codes "help"))
      then (code 0, s)
      else (code 1, s)
