-- ===== src/Wgctl/Tests.antt =====
-- Tests of src/wgctl.c.
use polar_wg_app.Common.{
  list_eq_refl, ℕ, ◌≡◌, ◌+◌, ◌-◌, length, refl, Bool, true, false, not, ◌&&◌, none, some, List, [],
  ◌∷◌, ◌++◌, ◌==◌, pos, replicate, list_eq, if◌then◌else◌, arith,
}
use polar_wg_app.Common.Texts.{codes}
use polar_wg_app.Text.{split_last}
use polar_wg_app.Text.Base64.RoundTrip.{IsBytes}
use polar_wg_app.Wgctl.{b64_encode_32, validate_iface, all_iface_chars, make_paths}
use polar_wg_app.Wgctl.Commands.{
  System, done, no_process, code, became, Shell, wg_core_bin, core_args, sigkill, cmd_genkey,
  cmd_pubkey, cmd_up, cmd_down, read_pid, start_core, probed, unless_alive, finish_down,
  stop_process,
}
use polar_wg_app.Wgctl.Commands.KeyPipe.{last_line, cmd_genkey-cmd_pubkey}
use polar_wg_app.Wgctl.Commands.Start.{Starts, cmd_up-Starts}
use polar_wg_app.Wgctl.Commands.Stop.{IsUnix, IsStopped, AreGone, cmd_down-Stops}
use polar_wg_app.Wgctl.Show.{
  opened, Streams, is_skipped, drain, when_connected, dial, dump_socket, dump_probed, dump_pid,
  dump_one, dump_entry, dump_entries, dump_dir, dump_all, cmd_show, main,
}
use polar_wg_app.Wgctl.Files.{make_paths-validate_iface}

abbrev key : List ℕ
key = replicate 32 77

key-IsBytes : IsBytes key
key-IsBytes = ground arith

abbrev utun : List ℕ
utun = codes "utun7"

utun_valid : validate_iface utun ≡ true
unfolding validate_iface all_iface_chars
utun_valid = refl

make_paths-validate_iface_example :
    let p = make_paths utun in
    let run = codes "/var/run/wireguard" in
    (split_last b'/' p.conf ≡ some (codes "/etc/wireguard", codes "utun7.conf"))
    × (split_last b'/' p.pidp ≡ some (run, codes "utun7.pid"))
    × (split_last b'/' p.namep ≡ some (run, codes "utun7.name"))
    × (split_last b'/' p.sockp ≡ some (run, codes "utun7.sock"))
make_paths-validate_iface_example = make_paths-validate_iface utun utun_valid

-- A machine with one process, number 42, that ends by SIGKILL only; every number in a file is 42.
record Machine : Type 0 where
  living : Bool
  files : List ℕ → Bool

lives : ℕ → Machine → Bool
lives pid w = (pid == 42) && w.living

signalled : ℕ → Machine → Machine
signalled sig w = if sig == sigkill then record w { living = false } else w

abbrev machine : System Machine
machine = record {
  generate_secret = λ w. (key, w);
  clamp_secret = λ sk. sk;
  generate_public = λ sk. some sk;
  getentropy = λ n w. (some (replicate n 7), w);
  fgets = λ n w. (some (b64_encode_32 key ++ 0x0a ∷ []), w);
  geteuid = λ w. 0;
  exists = λ f w. w.files f;
  fscanf = λ f w. if w.files f then some (pos 42) else none;
  kill = λ pid sig w. if lives pid w then (done, signalled sig w) else (no_process, w);
  nanosleep = λ w. w;
  unlink = λ f w. (true, record w { files = λ g. w.files g && not (list_eq g f) });
  execl = λ args w. true;
}

abbrev running : Shell Machine
running = record { world = record { living = true; files = λ f. true }; printed = [] }

abbrev crashed : Shell Machine
crashed = record { world = record { living = false; files = λ f. true }; printed = [] }

-- No `unlink` fails.
abbrev none_refused : List ℕ → Machine → Bool
none_refused f w = false

machine-IsUnix : IsUnix machine lives none_refused
unfolding lives signalled
machine-IsUnix = record {
  allowed = λ pid sig w. ground arith;
  ended = λ pid sig w e. ground arith;
  killed = λ pid w e. ground arith;
  unlink_keeps = λ p f w e. e;
  unlinked = λ f w e. ground (arith, list_eq_refl f);
  not_unlinked = λ f w e. cc;
  stays_unlinked = λ f g w e. ground arith;
  stays_refused = λ f g w e. e;
}

cmd_genkey-cmd_pubkey_example :
    ((cmd_genkey machine running).0 ≡ code 0)
    × ((cmd_genkey machine running).1.printed
        ≡ last_line machine (cmd_genkey machine running).1 ∷ running.printed)
    × ((cmd_pubkey machine running).0 ≡ code 0)
    × ((cmd_pubkey machine running).1.printed ≡ b64_encode_32 key ∷ [])
unfolding cmd_genkey
cmd_genkey-cmd_pubkey_example =
    cmd_genkey-cmd_pubkey machine running running key key-IsBytes refl refl refl

cmd_up-crashed :
    (cmd_up machine (utun ∷ []) crashed).0 ≡ became (wg_core_bin ∷ core_args machine utun)
unfolding cmd_up validate_iface all_iface_chars unless_alive read_pid probed start_core lives
cmd_up-crashed = refl

cmd_up-Starts_example : Starts machine utun crashed.world (cmd_up machine (utun ∷ []) crashed).0
cmd_up-Starts_example = cmd_up-Starts machine utun [] crashed

cmd_down-running : (cmd_down machine (utun ∷ []) running).0 ≡ code 0
unfolding cmd_down validate_iface all_iface_chars read_pid stop_process finish_down lives
cmd_down-running = refl

cmd_down-Stops_example :
    let p = make_paths utun in
    let w = (cmd_down machine (utun ∷ []) running).1.world in
    (validate_iface utun ≡ true)
    × IsStopped machine lives none_refused machine-IsUnix (read_pid machine p.pidp running.world) w
    × AreGone machine lives none_refused machine-IsUnix p w
cmd_down-Stops_example =
    cmd_down-Stops machine lives none_refused machine-IsUnix utun [] running cmd_down-running

-- A machine whose state is the number of open descriptors; utun7 is up, and its status is one chunk.
abbrev quiet : System ℕ
quiet = record {
  generate_secret = λ w. (key, w);
  clamp_secret = λ sk. sk;
  generate_public = λ sk. some sk;
  getentropy = λ n w. (some (replicate n 7), w);
  fgets = λ n w. (none, w);
  geteuid = λ w. 0;
  exists = λ f w. true;
  fscanf = λ f w. some (pos 42);
  kill = λ pid sig w. (done, w);
  nanosleep = λ w. w;
  unlink = λ f w. (true, w);
  execl = λ args w. true;
}

abbrev status : List ℕ
status = codes "public_key=00"

abbrev streams : Streams ℕ
streams = record {
  sun_path_size = 104;
  socket = λ w. (some 3, 1 + w);
  connect = λ fd path w. (true, w);
  chunks = λ fd w. status ∷ [];
  write = λ c w. (some (length c), w);
  close = λ fd w. w - 1;
  opendir = λ w. (opened, 1 + w);
  entries = λ w. codes ".pid" ∷ codes "utun7.pid" ∷ codes "utun7.sock" ∷ [];
  closedir = λ w. w - 1;
}

abbrev console : Shell ℕ
console = record { world = 3; printed = [] }

main-show :
    main quiet streams (codes "show" ∷ []) console
    ≡ (code 0, record { world = 3; printed = status ∷ [] })
unfolding main cmd_show dump_all dump_dir dump_entries dump_entry is_skipped dump_one dump_pid
    dump_probed dump_socket dial when_connected drain read_pid list_eq
main-show = refl
