-- ===== src/Tunnel/Reached.antt =====
-- The tables of tunnels that the calls of `tunnelService` can lead to.
use oblimap.Base.{ℕ, ◌≡◌, true, Option, List, [], String, Memᴰ, where_, arith}
use oblimap.Tunnel.{Tunnel, Inventory, Registry, is_live, count}
use oblimap.Tunnel.Calls.{Request, start_tunnel, settle_tunnel, close_tunnel, cleanup_stale_tunnels}
use oblimap.Tunnel.Limits.{
  IsWithin, left, start_tunnel-IsWithin, settle_tunnel-IsWithin, close_tunnel-IsWithin,
  cleanup_stale_tunnels-IsWithin,
}

-- One call: `openTunnel` up to its insert, the answer of the probe for a tunnel that is live, `closeTunnel`, or
-- `cleanupStaleTunnels`.
pub data Call : List Tunnel → List Tunnel → Type 0 where
  opens :
      (id now : ℕ) (r : Request) (inventory : Inventory) (registry : Registry) (ts : List Tunnel)
      → Call ts (left (start_tunnel id now r inventory registry ts) ts)
  answers :
      (id now : ℕ) (answer : Option String) (ts : List Tunnel)
      → ((x : Tunnel) → Memᴰ x ts → x.id ≡ id → is_live x.status ≡ true)
      → Call ts (settle_tunnel id now answer ts).1
  closes :
      (id : ℕ) (tenant : Option ℕ) (now : ℕ) (ts : List Tunnel)
      → Call ts (close_tunnel id tenant now ts)
  cleans :
      (registry : Registry) (now : ℕ) (ts : List Tunnel)
      → Call ts (cleanup_stale_tunnels registry now ts)

pub data Reached : List Tunnel → Type 0 where
  none_yet : Reached []
  after : {ts us : List Tunnel} → Reached ts → Call ts us → Reached us

Call-IsWithin : {ts us : List Tunnel} → Call ts us → IsWithin ts → IsWithin us
Call-IsWithin (opens id now r inventory registry ts) w =
    start_tunnel-IsWithin id now r inventory registry ts w
Call-IsWithin (answers id now answer ts live) w = settle_tunnel-IsWithin id now answer ts live w
Call-IsWithin (closes id tenant now ts) w = close_tunnel-IsWithin id tenant now ts w
Call-IsWithin (cleans registry now ts) w = cleanup_stale_tunnels-IsWithin registry now ts w

empty-IsWithin : IsWithin []
unfolding count where_
empty-IsWithin = record { users = λ u t. omega arith; tenants = λ t. omega arith }

-- In every table that calls of `openTunnel`, `closeTunnel` and `cleanupStaleTunnels`, one after the other, lead to, if the
-- answer of a probe comes while its tunnel is live, no user has more than 5 live tunnels in a tenant and no
-- tenant more than 20.
pub Reached-IsWithin : {ts : List Tunnel} → Reached ts → IsWithin ts
Reached-IsWithin none_yet = empty-IsWithin
Reached-IsWithin (after r c) = Call-IsWithin c (Reached-IsWithin r)
