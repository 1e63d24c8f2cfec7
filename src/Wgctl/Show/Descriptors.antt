-- ===== src/Wgctl/Show/Descriptors.antt =====
-- What `cmd_show` of src/wgctl.c opens, it closes.
use polar_wg_app.Common.{
  ℕ, ◌+◌, ◌-◌, ◌≡◌, refl, ap, ◌∙◌, Bool, true, false, not, Option, none, some, List, [], ◌∷◌,
  if◌then◌else◌, if-cases, arith,
}
use polar_wg_app.Wgctl.{validate_iface}
use polar_wg_app.Wgctl.Commands.{Killed, done, no_process, denied, System, Exit, Shell, print_line}
use polar_wg_app.Wgctl.Show.{
  Opened, opened, missing, refused, Streams, is_whole, shown, is_skipped, drain, when_connected,
  dial, dump_socket, dump_probed, dump_pid, dump_one, dump_entry, dump_entries, dump_dir, dump_all,
  cmd_show,
}

abbrev pub one_if_some : Option ℕ → ℕ
one_if_some none = 0
one_if_some (some fd) = 1

abbrev pub one_if_opened : Opened → ℕ
one_if_opened opened = 1
one_if_opened missing = 0
one_if_opened refused = 0

-- How the calls change the number of descriptors that the process has open.
pub record Counts {W : Type 0} (S : System W) (D : Streams W) (held : W → ℕ) : Type 0 where
  pub kill : (pid sig : ℕ) (w : W) → held (S.kill pid sig w).1 ≡ held w
  pub socket : (w : W) → held (D.socket w).1 ≡ one_if_some (D.socket w).0 + held w
  pub connect : (fd : ℕ) (path : List ℕ) (w : W) → held (D.connect fd path w).1 ≡ held w
  pub write : (c : List ℕ) (w : W) → held (D.write c w).1 ≡ held w
  pub close : (fd : ℕ) (w : W) → held (D.close fd w) ≡ held w - 1
  pub opendir : (w : W) → held (D.opendir w).1 ≡ one_if_opened (D.opendir w).0 + held w
  pub closedir : (w : W) → held (D.closedir w) ≡ held w - 1

module _ {W : Type 0} (S : System W) (D : Streams W) (held : W → ℕ) (counts : Counts S D held) where
  drain-held : (cs : List (List ℕ)) (s : Shell W) → held (drain S D cs s).world ≡ held s.world
  unfolding drain
  drain-held [] s = refl
  drain-held (c ∷ cs) s =
      let (r, w) = D.write c s.world in
      let s1 = print_line S (shown c r) w s in
      if-cases (λ (t : Shell W). held t.world ≡ held s.world) (is_whole c r)
        (λ _. drain-held cs s1 ∙ counts.write c s.world) (λ _. counts.write c s.world)

  when_connected-held :
      (fd : ℕ) (up : Bool) (s : Shell W)
      → held (when_connected S D fd up s).1.world ≡ held s.world - 1
  unfolding when_connected
  when_connected-held fd true s = grind (arith, drain-held, counts.close)
  when_connected-held fd false s = grind (arith, counts.close)

  dial-held :
      (iface : List ℕ) (o : Option ℕ) (s : Shell W)
      → held (dial S D iface o s).1.world ≡ held s.world - one_if_some o
  unfolding dial
  dial-held iface none s = omega arith
  dial-held iface (some fd) s = grind (arith, when_connected-held, counts.connect)

  dump_socket-held :
      (iface : List ℕ) (s : Shell W) → held (dump_socket S D iface s).1.world ≡ held s.world
  unfolding dump_socket
  dump_socket-held iface s = grind (arith, dial-held, counts.socket)

  dump_probed-held :
      (iface : List ℕ) (pid : ℕ) (r : Killed) (s : Shell W)
      → held (dump_probed S D iface pid r s).1.world ≡ held s.world
  unfolding dump_probed
  dump_probed-held iface pid done s = dump_socket-held iface s
  dump_probed-held iface pid no_process s = refl
  dump_probed-held iface pid denied s = dump_socket-held iface s

  dump_pid-held :
      (iface : List ℕ) (o : Option ℕ) (s : Shell W)
      → held (dump_pid S D iface o s).1.world ≡ held s.world
  unfolding dump_pid
  dump_pid-held iface none s = refl
  dump_pid-held iface (some pid) s =
      let (r, w) = S.kill pid 0 s.world in
      dump_probed-held iface pid r (record s { world = w }) ∙ counts.kill pid 0 s.world

  dump_one-held :
      (iface : List ℕ) (s : Shell W) → held (dump_one S D iface s).1.world ≡ held s.world
  unfolding dump_one
  dump_one-held iface s = dump_pid-held iface _ s

  dump_entry-held :
      (name : List ℕ) (any : Bool) (s : Shell W)
      → held (dump_entry S D name any s).1.world ≡ held s.world
  unfolding dump_entry
  dump_entry-held name any s =
      let s1 = if any then print_line S [] s.world s else s in
      if-cases (λ (t : Bool × Shell W). held t.1.world ≡ held s.world) (is_skipped name) (λ _. refl)
        (λ _.
          dump_one-held _ s1
          ∙ if-cases (λ (t : Shell W). held t.world ≡ held s.world) any (λ _. refl) (λ _. refl))

  dump_entries-held :
      (names : List (List ℕ)) (any : Bool) (s : Shell W)
      → held (dump_entries S D names any s).1.world ≡ held s.world
  unfolding dump_entries
  dump_entries-held [] any s = refl
  dump_entries-held (name ∷ names) any s =
      let (any1, s1) = dump_entry S D name any s in
      dump_entries-held names any1 s1 ∙ dump_entry-held name any s

  dump_dir-held :
      (o : Opened) (s : Shell W) → held (dump_dir S D o s).1.world ≡ held s.world - one_if_opened o
  unfolding dump_dir
  dump_dir-held opened s =
      let (any, s1) = dump_entries S D (D.entries s.world) false s in
      let e = counts.closedir s1.world ∙ ap (λ n. n - 1) (dump_entries-held _ false s) in
      if-cases (λ (t : Shell W). held t.world ≡ held s.world - 1) any (λ _. e) (λ _. e)
  dump_dir-held missing s = omega arith
  dump_dir-held refused s = omega arith

  dump_all-held : (s : Shell W) → held (dump_all S D s).1.world ≡ held s.world
  unfolding dump_all
  dump_all-held s = grind (arith, dump_dir-held, counts.opendir)

  -- `cmd_show` leaves as many descriptors open as there were, whatever its arguments and however its calls
  -- of the system turn out.
  pub cmd_show-held :
      (args : List (List ℕ)) (s : Shell W) → held (cmd_show S D args s).1.world ≡ held s.world
  unfolding cmd_show
  cmd_show-held [] s = dump_all-held s
  cmd_show-held (iface ∷ args) s =
      if-cases (λ (r : Exit × Shell W). held r.1.world ≡ held s.world) (not (validate_iface iface))
        (λ _. refl) (λ _. dump_one-held iface s)
