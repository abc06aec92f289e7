-- ===== src/Route.antt =====
-- A router as the forwarder sees it: `Router` and its methods in forwarder/routes.go. The join
-- filters (xorfilter, roaring bitmaps), the NetID test of lorawan and the accounting are parameters.
pub mod Interest
mod Tests
use packet_handling.Base.{
  ℕ, ◌<◌, String, Bool, true, false, ◌&&◌, ◌||◌, Option, none, some, ltb, ◌==◌, if◌then◌else◌,
  length,
}
use packet_handling.Wire.{Xor8}
use packet_handling.DevAddr.{DevAddr, dev_addr_has_prefix}

-- The code that the router's methods call and the repository does not hold.
pub record Externals (Bitmap : Type 0) : Type 0 where
  -- `addr.IsNetID(netID)` of lorawan
  pub is_net_id : DevAddr → ℕ → Bool
  -- `filter.Contains(key)` of xorfilter
  pub xor_contains : Xor8 → ℕ → Bool
  -- `bitmap.Contains(key)` of roaring64
  pub bitmap_contains : Bitmap → ℕ → Bool
  -- `Accounter.Allow(owner, airtime)`, the airtime in nanoseconds
  pub allow : ℕ → ℕ → Bool

-- `Router`; whether it has an `Accounter` is all that is kept of it, since there is one for all of them.
-- `NewRouter` gives it, and the decoding of the configuration leaves nil.
pub record Router (Bitmap : Type 0) : Type 0 where
  pub thingsix_id : ℕ
  pub endpoint : String
  pub is_default : Bool
  pub has_accounting : Bool
  pub name : String
  pub net_id : ℕ
  pub prefix : ℕ
  pub mask : ℕ
  pub owner : ℕ
  pub frequency_plan : ℕ
  pub join_filter : Option Xor8
  pub join_bitmap : Option Bitmap

pub record RouterDetails : Type 0 where
  pub endpoint : String
  pub net_id : ℕ
  pub prefix : ℕ
  pub mask : ℕ
  pub frequency_plan : ℕ
  pub owner : ℕ

module _ {Bitmap : Type 0} where
  -- `NewRouter`, with an `Accounter`
  unfoldable pub new_router : ℕ → String → Bool → ℕ → ℕ → ℕ → ℕ → ℕ → Router Bitmap
  new_router id endpoint def net_id prefix mask plan owner = record {
    thingsix_id = id;
    endpoint = endpoint;
    is_default = def;
    has_accounting = true;
    name = "";
    net_id = net_id;
    prefix = prefix;
    mask = mask;
    owner = owner;
    frequency_plan = plan;
    join_filter = none;
    join_bitmap = none;
  }

  unfoldable pub set_join_filter : Router Bitmap → Option Xor8 → Option Bitmap → Router Bitmap
  set_join_filter r filter bitmap = record r { join_filter = filter; join_bitmap = bitmap }

module _ {Bitmap : Type 0} (ext : Externals Bitmap) where
  -- `AllowAirtime(owner, airtime)`, of a default router or one with an `Accounter`
  unfoldable pub allow_airtime : Router Bitmap → ℕ → ℕ → Bool
  allow_airtime r owner airtime = r.is_default || ext.allow owner airtime

  unfoldable pub interested_in : Router Bitmap → DevAddr → Bool
  interested_in r addr =
      if r.is_default
      then true
      else if ltb 0 r.mask && dev_addr_has_prefix addr r.prefix r.mask
      then true
      else if r.mask == 0 && ext.is_net_id addr r.net_id
      then true
      else false

  -- The two filters of `AcceptsJoin`, the bitmap first.
  accepts_by : Option Bitmap → Option Xor8 → ℕ → Bool
  accepts_by (some bitmap) filter key = ext.bitmap_contains bitmap key
  accepts_by none (some filter) key =
      if ltb 0 (length filter.fingerprints) then ext.xor_contains filter key else false
  accepts_by none none key = false

  unfoldable pub accepts_join : Router Bitmap → ℕ → Bool
  unfolding accepts_by
  accepts_join r dev_eui =
      if r.is_default then true else accepts_by r.join_bitmap r.join_filter dev_eui
