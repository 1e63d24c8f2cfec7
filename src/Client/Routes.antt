-- ===== src/Client/Routes.antt =====
-- The set-up of the interface and the system's routes in src/wg_core.c: `utun_apply_inet4`,
-- `utun_apply_inet6`, `utun_apply_peer_routes`, `reassert_peer_routes` and `utun_configure`.
pub mod Table
use polar_wg_app.Common.{
  ℕ, zero, suc, ◌+◌, ◌*◌, ◌/◌, ◌-◌, ◌^◌, Bool, true, false, not, Option, none, some, List, [], ◌∷◌,
  ◌++◌, ltb, leb, ◌==◌, if◌then◌else◌, get_or, take, length,
}
use polar_wg_app.Common.Texts.{codes}
use polar_wg_app.Session.Types.{Family, inet, inet6, Cidr, IfaceAddr}
use polar_wg_app.Session.Report.{decimal}
use polar_wg_app.Client.Types.{PeerState, ClientConfig}
use polar_wg_app.Client.Device.{be32}

-- A prefix as the commands name it: the family, the text of the address, and the length.
pub record Dest : Type 0 where
  pub family : Family
  pub net : List ℕ
  pub prefix_len : ℕ

-- The command lines that are run. The first argument of `add` is whether its output is thrown away.
pub data Command : Type 0 where
  ifconfig_inet : List ℕ → List ℕ → ℕ → Command
  ifconfig_inet6 : List ℕ → List ℕ → ℕ → Command
  ifconfig_up : List ℕ → ℕ → Command
  delete : Dest → Command
  add : Bool → Dest → List ℕ → Command
  change : Dest → List ℕ → Command

-- `inet_pton` and `inet_ntop`, and `system` on the text of a command: whether it exits with 0.
pub record Admin (W : Type 0) : Type 0 where
  pub inet_pton : Family → List ℕ → Option (List ℕ)
  pub inet_ntop : Family → List ℕ → Option (List ℕ)
  pub system : Command → W → Bool × W

-- The option of `route` for a family.
abbrev pub af_option : Family → List ℕ
af_option inet = codes "-net"
af_option inet6 = codes "-inet6"

abbrev pub no_output : List ℕ
no_output = codes " >/dev/null 2>&1"

unfoldable pub dest_text : Dest → List ℕ
dest_text d = af_option d.family ++ b' ' ∷ (d.net ++ b'/' ∷ decimal d.prefix_len)

unfoldable pub line_of : Command → List ℕ
line_of (ifconfig_inet name addr mtu) =
    codes "/sbin/ifconfig "
    ++ name
    ++ codes " inet "
    ++ addr
    ++ b' ' ∷ addr
    ++ codes " mtu "
    ++ decimal mtu
    ++ codes " up"
line_of (ifconfig_inet6 name addr len) =
    codes "/sbin/ifconfig "
    ++ name
    ++ codes " inet6 "
    ++ addr
    ++ codes " prefixlen "
    ++ decimal len
    ++ codes " alias"
line_of (ifconfig_up name mtu) =
    codes "/sbin/ifconfig " ++ name ++ codes " mtu " ++ decimal mtu ++ codes " up"
line_of (delete d) = codes "/sbin/route -q -n delete " ++ dest_text d ++ no_output
line_of (add quiet d name) =
    codes "/sbin/route -q -n add "
    ++ dest_text d
    ++ codes " -interface "
    ++ name
    ++ (if quiet then no_output else [])
line_of (change d name) =
    codes "/sbin/route -q -n change " ++ dest_text d ++ codes " -interface " ++ name ++ no_output

-- The text of a command in the buffer of 256 bytes, or of 64 for `ifconfig_up`.
unfoldable pub command_text : Command → List ℕ
command_text (ifconfig_up name mtu) = take 63 (line_of (ifconfig_up name mtu))
command_text c = take 255 (line_of c)

-- An IPv4 address with the bits behind the prefix cleared.
unfoldable pub masked4 : ℕ → List ℕ → List ℕ
masked4 p a =
    let v = get_or a 0 0 * 2 ^ 24 + get_or a 1 0 * 2 ^ 16 + get_or a 2 0 * 2 ^ 8 + get_or a 3 0 in
    be32 (if leb 32 p then v else v / 2 ^ (32 - p) * 2 ^ (32 - p))

-- `inet_ntop` does not fail for an IPv4 address and a buffer of 64 bytes.
abbrev pub text_or_empty : Option (List ℕ) → List ℕ
text_or_empty none = []
text_or_empty (some t) = t

module _ {W : Type 0} (A : Admin W) where
  abbrev pub do_command : Command → W → W
  do_command c w = (A.system c w).1

  -- The text of the address of an allowed prefix, as the routes name it.
  unfoldable pub net_text : Cidr → Option (List ℕ)
  net_text c = elim c.family [
    | inet ↦ A.inet_ntop inet (masked4 c.prefix_len c.addr)
    | inet6 ↦ A.inet_ntop inet6 c.addr
  ]

  -- What an allowed prefix gives a route for; the default routes are left out.
  unfoldable pub dest_of : Cidr → Option Dest
  dest_of c = if c.prefix_len == 0 then none else elim (net_text c) [
    | none ↦ none
    | some net ↦ some (record { family = c.family; net = net; prefix_len = c.prefix_len })
  ]

  abbrev pub set_route : List ℕ → Dest → W → W
  set_route ifname d w = do_command (add false d ifname) (do_command (delete d) w)

  unfoldable pub apply_route : List ℕ → Option Dest → W → W
  apply_route ifname none w = w
  apply_route ifname (some d) w = set_route ifname d w

  unfoldable pub apply_cidrs : List ℕ → List Cidr → W → W
  apply_cidrs ifname [] w = w
  apply_cidrs ifname (c ∷ cs) w = apply_cidrs ifname cs (apply_route ifname (dest_of c) w)

  -- `utun_apply_peer_routes`
  unfoldable pub apply_peers : List ℕ → List PeerState → W → W
  apply_peers ifname [] w = w
  apply_peers ifname (p ∷ ps) w = apply_peers ifname ps (apply_cidrs ifname p.allowed w)

  -- `route change`, and `route add` if there is nothing to change.
  unfoldable pub reassert_route : List ℕ → Option Dest → W → W
  reassert_route ifname none w = w
  reassert_route ifname (some d) w =
      let (changed, w1) = A.system (change d ifname) w in
      if not changed then do_command (add true d ifname) w1 else w1

  unfoldable pub reassert_cidrs : List ℕ → List Cidr → W → W
  reassert_cidrs ifname [] w = w
  reassert_cidrs ifname (c ∷ cs) w = reassert_cidrs ifname cs (reassert_route ifname (dest_of c) w)

  -- `reassert_peer_routes`
  unfoldable pub reassert_peers : List ℕ → List PeerState → W → W
  reassert_peers ifname [] w = w
  reassert_peers ifname (p ∷ ps) w = reassert_peers ifname ps (reassert_cidrs ifname p.allowed w)

  -- The route for the network of an interface address, in `utun_apply_inet4`.
  unfoldable pub net_route : List ℕ → IfaceAddr → W → Bool × W
  net_route ifname a w = elim (A.inet_pton inet a.addr_str) [
    | none ↦ (false, w)
    | some addr ↦
        let net = text_or_empty (A.inet_ntop inet (masked4 a.prefix_len addr)) in
        (true, set_route ifname (record { family = inet; net = net; prefix_len = a.prefix_len }) w)
  ]

  -- `utun_apply_inet4`: whether it returns 0.
  unfoldable pub utun_apply_inet4 : List ℕ → ℕ → IfaceAddr → W → Bool × W
  utun_apply_inet4 ifname mtu a w =
      let (up, w1) = A.system (ifconfig_inet ifname a.addr_str mtu) w in
      if not up
      then (false, w1)
      else if ltb a.prefix_len 32
      then net_route ifname a w1
      else (true, w1)

  -- `utun_apply_inet6`: whether it returns 0.
  unfoldable pub utun_apply_inet6 : List ℕ → IfaceAddr → W → Bool × W
  utun_apply_inet6 ifname a w = A.system (ifconfig_inet6 ifname a.addr_str a.prefix_len) w

  unfoldable pub apply_addr : List ℕ → ℕ → IfaceAddr → W → Bool × W
  apply_addr ifname mtu a w = elim a.family [
    | inet ↦ utun_apply_inet4 ifname mtu a w
    | inet6 ↦ utun_apply_inet6 ifname a w
  ]

  abbrev pub is_inet : Family → Bool
  is_inet inet = true
  is_inet inet6 = false

  -- The loop over the addresses: whether all were applied, and `v4_done`.
  unfoldable pub apply_addrs : List ℕ → ℕ → List IfaceAddr → Bool → W → Bool × Bool × W
  apply_addrs ifname mtu [] v4 w = (true, v4, w)
  apply_addrs ifname mtu (a ∷ more) v4 w =
      let (fine, w1) = apply_addr ifname mtu a w in
      let rest = apply_addrs ifname mtu more (if is_inet a.family then true else v4) w1 in
      if fine then rest else (false, v4, w1)

  -- `utun_configure`, with the MTU in `g_mtu`: whether it returns 0.
  unfoldable pub utun_configure : List ℕ → ℕ → ClientConfig → W → Bool × W
  utun_configure ifname mtu cfg w =
      let (fine, v4, w1) = apply_addrs ifname mtu cfg.if_addrs false w in
      if length cfg.if_addrs == 0
      then (false, w)
      else if not fine
      then (false, w1)
      else (let w2 = if v4 then w1 else do_command (ifconfig_up ifname mtu) w1 in
          (true, apply_peers ifname cfg.peers w2))
