-- ===== src/Selection/Reserve/Leases.antt =====
-- proxy.rs: the count of active connections, over the life of a lease.
use proxy_load.Base.{
  ℕ, ◌+◌, ◌-◌, ◌≡◌, refl, arith, nat_beq_iff, nat_eq, unwrap_or, Bool-cases, inl, inr,
}
use proxy_load.Base.Map.{Map, get, insert, get-insert, get-remove, get-insert_self}
use proxy_load.Runtime.{Runtime, Lease}
use proxy_load.Selection.Reserve.{
  increment_active, drop_lease, release_permits, lower_active, set_slots,
}

-- One connection less at `id` undoes one more, for every proxy `j`.
lower_active-insert :
    (id j n : ℕ) (active : Map ℕ ℕ)
    → unwrap_or (get id active) 0 ≡ n
    → unwrap_or
        (get j (lower_active id (get id (insert id (n + 1) active)) (insert id (n + 1) active)))
        0
      ≡ unwrap_or (get j active) 0
unfolding lower_active
lower_active-insert id j n active h =
    let self = get-insert_self id (n + 1) active in
    rw (self, lower_active)
      (ground (
        arith,
        h,
        nat_beq_iff id j,
        get-remove j id (insert id (n + 1) active),
        get-insert j id (n + 1 - 1) (insert id (n + 1) active),
        get-insert j id (n + 1) active,
      ))

module _ {F : Type 0} where
  -- Dropping a lease takes back what reserving its proxy added to the count of active connections:
  -- every proxy has as many as before, whether or not the lease still had its permits to dial.
  pub drop_lease-increment_active :
      (lease : Lease) (j : ℕ) (rt : Runtime F)
      → unwrap_or (get j (drop_lease lease (increment_active lease.proxy.id rt)).active) 0
        ≡ unwrap_or (get j rt.active) 0
  unfolding drop_lease release_permits increment_active set_slots
  drop_lease-increment_active lease j rt =
      let undone =
        lower_active-insert lease.proxy.id j (unwrap_or (get lease.proxy.id rt.active) 0) rt.active
          refl in
      elim (Bool-cases lease.dialing) [ inl e ↦ rw e undone | inr e ↦ rw e undone ]
