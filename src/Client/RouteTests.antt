-- ===== src/Client/RouteTests.antt =====
-- Tests of the interface set-up and the routes of src/wg_core.c.
use polar_wg_app.Common.{
  ℕ, ◌≡◌, refl, Bool, true, false, ◌&&◌, Option, none, some, List, [], ◌∷◌, ◌==◌, if◌then◌else◌,
  list_eq,
}
use polar_wg_app.Common.Texts.{codes}
use polar_wg_app.Session.Types.{Family, inet, inet6}
use polar_wg_app.Session.Report.{decimal, decimal_from}
use polar_wg_app.Client.Types.{PeerState, zero_peer_state, ClientConfig, zero_config}
use polar_wg_app.Client.Routes.{
  Dest, Command, ifconfig_inet, ifconfig_inet6, ifconfig_up, delete, add, change, Admin,
  command_text, line_of, dest_text, masked4,
}

abbrev lan : Dest
lan = record { family = inet; net = codes "10.0.1.0"; prefix_len = 24 }

add_text :
    command_text (add false lan (codes "utun7"))
    ≡ codes "/sbin/route -q -n add -net 10.0.1.0/24 -interface utun7"
unfolding command_text line_of dest_text decimal decimal_from
add_text = refl

masked4_lan : masked4 24 (10 ∷ 0 ∷ 1 ∷ 77 ∷ []) ≡ 10 ∷ 0 ∷ 1 ∷ 0 ∷ []
unfolding masked4
masked4_lan = refl

abbrev same_family : Family → Family → Bool
same_family inet inet = true
same_family inet inet6 = false
same_family inet6 inet = false
same_family inet6 inet6 = true

unfoldable same_dest : Dest → Dest → Bool
same_dest d e =
    same_family d.family e.family && (list_eq d.net e.net && (d.prefix_len == e.prefix_len))

-- The state is the table itself.
abbrev Routes : Type 0
Routes = Dest → Option (List ℕ)

abbrev put : Dest → Option (List ℕ) → Routes → Routes
put d o w e = if same_dest d e then o else w e

abbrev changed_if : Dest → List ℕ → Option (List ℕ) → Routes → Bool × Routes
changed_if d name none w = (false, w)
changed_if d name (some x) w = (true, put d (some name) w)

abbrev run_command : Command → Routes → Bool × Routes
run_command (ifconfig_inet name addr mtu) w = (true, w)
run_command (ifconfig_inet6 name addr len) w = (true, w)
run_command (ifconfig_up name mtu) w = (true, w)
run_command (delete d) w = (true, put d none w)
run_command (add quiet d name) w = (true, put d (some name) w)
run_command (change d name) w = changed_if d name (w d) w

-- Addresses are their own texts.
abbrev admin : Admin Routes
admin = record { inet_pton = λ f t. some t; inet_ntop = λ f a. some a; system = run_command }

-- No command fails but for want of a route.
abbrev none_failed : Routes → Dest → Bool
none_failed w e = false

abbrev hub : PeerState
hub = record zero_peer_state {
  allowed =
      record { family = inet; addr = 10 ∷ 0 ∷ 1 ∷ 77 ∷ []; prefix_len = 24 }
      ∷ record { family = inet; addr = 0 ∷ 0 ∷ 0 ∷ 0 ∷ []; prefix_len = 0 }
      ∷ [];
}

abbrev config : ClientConfig
config = record zero_config {
  peers = hub ∷ [];
  if_addrs = record { family = inet; addr_str = 10 ∷ 9 ∷ 0 ∷ 2 ∷ []; prefix_len = 24 } ∷ [];
}

abbrev wanted : Dest
wanted = record { family = inet; net = 10 ∷ 0 ∷ 1 ∷ 0 ∷ []; prefix_len = 24 }

abbrev utun : List ℕ
utun = codes "utun7"

-- Another tunnel has all routes.
abbrev stale : Routes
stale e = some (codes "utun3")
