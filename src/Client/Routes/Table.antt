-- ===== src/Client/Routes/Table.antt =====
-- What src/wg_core.c makes of the system's table of routes.
use polar_wg_app.Common.{
  ℕ, ◌+◌, ◌*◌, ◌/◌, ◌%◌, ◌^◌, ◌-◌, ◌≡◌, ◌⊎◌, Bool, true, false, not, ◌&&◌, ◌||◌, Option, none, some,
  List, [], ◌∷◌, ◌==◌, if◌then◌else◌, get_or,
}
use polar_wg_app.Session.Types.{inet, inet6, Cidr}
use polar_wg_app.Client.Types.{PeerState}
use polar_wg_app.Client.Routes.{Dest, delete, add, change, Admin, Command, do_command}

-- The network of an IPv4 address: its number less what the bits behind the prefix are worth.
unfoldable pub network4 : ℕ → List ℕ → List ℕ
network4 p a =
    let v = get_or a 0 0 * 16777216 + get_or a 1 0 * 65536 + get_or a 2 0 * 256 + get_or a 3 0 in
    let n = v - v % 2 ^ (32 - p) in
    n / 16777216 % 256 ∷ n / 65536 % 256 ∷ n / 256 % 256 ∷ n % 256 ∷ []

-- As the manual of route(8) has it: `delete` leaves no route, `add` that exits with 0 enters one, as
-- `change` does, which fails only where there is none, and a command that fails changes nothing. `table w e`
-- is the interface that the route for `e` goes to, `same` whether two texts name the same prefix, and
-- `failed w e` that by then an `add` has failed although there was no route for `e`.
pub record IsRouter {W : Type 0} (A : Admin W) (table : W → Dest → Option (List ℕ))
    (same : Dest → Dest → Bool) (failed : W → Dest → Bool) : Type 0 where
  pub same_refl : (d : Dest) → same d d ≡ true
  pub deleted :
      (d e : Dest) (w : W)
      → table (do_command A (delete d) w) e ≡ (if same d e then none else table w e)
  pub added :
      (quiet : Bool) (d e : Dest) (name : List ℕ) (w : W)
      → (A.system (add quiet d name) w).0 ≡ true
      → table (do_command A (add quiet d name) w) e ≡ (if same d e then some name else table w e)
  pub not_added :
      (quiet : Bool) (d e : Dest) (name : List ℕ) (w : W)
      → (A.system (add quiet d name) w).0 ≡ false
      → table (do_command A (add quiet d name) w) e ≡ table w e
  pub refused :
      (quiet : Bool) (d e : Dest) (name : List ℕ) (w : W)
      → (A.system (add quiet d name) w).0 ≡ false
      → table w d ≡ none
      → same d e ≡ true
      → failed (do_command A (add quiet d name) w) e ≡ true
  pub changed :
      (d e : Dest) (name : List ℕ) (w : W)
      → (A.system (change d name) w).0 ≡ true
      → table (do_command A (change d name) w) e ≡ (if same d e then some name else table w e)
  pub unchanged :
      (d e : Dest) (name : List ℕ) (w : W)
      → (A.system (change d name) w).0 ≡ false
      → (table w d ≡ none) × (table (do_command A (change d name) w) e ≡ table w e)
  pub still_failed :
      (c : Command) (e : Dest) (w : W) → failed w e ≡ true → failed (do_command A c w) e ≡ true

module _ {W : Type 0} (A : Admin W) (same : Dest → Dest → Bool) where
  -- The text of the network of an allowed prefix.
  abbrev pub network_text : Cidr → Option (List ℕ)
  network_text c = elim c.family [
    | inet ↦ A.inet_ntop inet (network4 c.prefix_len c.addr)
    | inet6 ↦ A.inet_ntop inet6 c.addr
  ]

  abbrev pub names : Cidr → Option (List ℕ) → Dest → Bool
  names c none e = false
  names c (some net) e = same (record { family = c.family; net = net; prefix_len = c.prefix_len }) e

  -- `e` is the network of one of the allowed IPs, and not a default route.
  unfoldable pub cidrs_want : List Cidr → Dest → Bool
  cidrs_want [] e = false
  cidrs_want (c ∷ cs) e = (not (c.prefix_len == 0) && names c (network_text c) e) || cidrs_want cs e

  unfoldable pub peers_want : List PeerState → Dest → Bool
  peers_want [] e = false
  peers_want (p ∷ ps) e = cidrs_want p.allowed e || peers_want ps e

  abbrev is_dest : Option Dest → Dest → Bool
  is_dest none e = false
  is_dest (some d) e = same d e

  module _ (table : W → Dest → Option (List ℕ)) (failed : W → Dest → Bool)
      (router : IsRouter A table same failed) (name : List ℕ) where
    -- The route for `e` goes to the interface, unless an `add` failed.
    abbrev pub Routed : Dest → W → Type 0
    Routed e w = (table w e ≡ some name) ⊎ (failed w e ≡ true)

    -- What becomes of `e`, if it is wanted and if not.
    abbrev pub Outcome : Bool → Dest → W → W → Type 0
    Outcome true e w w1 = Routed e w1
    Outcome false e w w1 = table w1 e ≡ table w e

    record Step (b : Bool) (e : Dest) (w w1 : W) : Type 0 where
      outcome : Outcome b e w w1
      kept : failed w e ≡ true → failed w1 e ≡ true
