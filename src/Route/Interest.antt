-- ===== src/Route/Interest.antt =====
-- Which devices a router hears of: `InterestedIn` and `AcceptsJoin` of forwarder/routes.go.
use packet_handling.Base.{
  ℕ, ◌+◌, ◌-◌, ◌%◌, ◌^◌, ◌≤◌, ◌<◌, ◌≡◌, ◌↔◌, ◌⊎◌, inl, inr, true, false, arith, Bool-cases,
}
use packet_handling.DevAddr.{DevAddr, IsAddr, uint32, dev_addr_has_prefix}
use packet_handling.DevAddr.Prefix.{has_prefix_block, has_prefix_length}
use packet_handling.Route.{Externals, Router, interested_in}

-- The address lies in the block of addresses that a prefix and the length of its mask name.
abbrev pub InBlock : ℕ → ℕ → DevAddr → Type 0
InBlock p m a = (0 < m) × (m ≤ 32) × (p ≤ uint32 a) × (uint32 a < p + 2 ^ (32 - m))

module _ {Bitmap : Type 0} (ext : Externals Bitmap) where
  -- What the registry, for routers that are not default ones, promises a router: its block where a
  -- mask is set, its NetID where the mask is 0.
  abbrev pub Subscribed : Router Bitmap → DevAddr → Type 0
  Subscribed r a = InBlock r.prefix r.mask a ⊎ ((r.mask ≡ 0) × (ext.is_net_id a r.net_id ≡ true))

  interested_block :
      (r : Router Bitmap) (a : DevAddr)
      → r.is_default ≡ false
      → (dev_addr_has_prefix a r.prefix r.mask ≡ true) ↔ InBlock r.prefix r.mask a
      → (interested_in ext r a ≡ true) ↔ Subscribed r a
  unfolding interested_in
  interested_block r a d e = (λ h. ground arith, λ h. ground arith)

  interested_default :
      (r : Router Bitmap) (a : DevAddr) → r.is_default ≡ true → interested_in ext r a ≡ true
  unfolding interested_in
  interested_default r a d = rw d

prefix-InBlock :
    (a : DevAddr) (p m : ℕ)
    → IsAddr a
    → p < 2 ^ 32
    → p % 2 ^ (32 - m) ≡ 0
    → (dev_addr_has_prefix a p m ≡ true) ↔ InBlock p m a
prefix-InBlock a p m v hp z = (
  λ e.
      let l = has_prefix_length a p m e in
      let b = (has_prefix_block a p m v hp z l.0 l.1).0 e in (l.0, l.1, b.0, b.1),
  λ b. (has_prefix_block a p m v hp z b.0 b.1).1 (b.2, b.3),
)

module _ {Bitmap : Type 0} (ext : Externals Bitmap) where
  -- With a registered prefix of 32 bits that has none set below its mask, a router hears of a
  -- device, by an address of four bytes, exactly if it is a default router, or the address lies in
  -- the router's block (mask 1 to 32), or the mask is 0 and the address has the router's NetID.
  pub interested_in_iff :
      (r : Router Bitmap) (a : DevAddr)
      → IsAddr a
      → r.prefix < 2 ^ 32
      → r.prefix % 2 ^ (32 - r.mask) ≡ 0
      → (interested_in ext r a ≡ true) ↔ ((r.is_default ≡ true) ⊎ Subscribed ext r a)
  interested_in_iff r a v hp z = elim (Bool-cases r.is_default) [
    | inl d ↦ (λ h. inl d, λ s. interested_default ext r a d)
    | inr d ↦
        let e = interested_block ext r a d (prefix-InBlock a r.prefix r.mask v hp z) in
        (λ h. inr (e.0 h), λ s. elim s [ inl d' ↦ cc | inr t ↦ e.1 t ])
  ]
