-- ===== src/Scheduler/Funds/Keys.antt =====
-- The budgets of Clone-Keys, as the endpoints of clone_keys.rs leave them.
use xcron_protocol.Prelude.{
  ℕ, ◌+◌, arith, lookup, Option-cases, inl, inr, Distinct-insert, Distinct-erase, total-insert,
  total-erase, AllValues-insert, AllValues-erase, AllValues-lookup,
}
use xcron_protocol.Framework.{Address, Ctx, SetMapper, Ensures, direct_egld}
use xcron_protocol.Scheduler.State.{State}
use xcron_protocol.Scheduler.CloneKeys.{
  new_clone_key, unspent, authorize_clone_key, revoke_clone_key, fund_clone_key,
}
use xcron_protocol.Scheduler.Funds.Books.{Covers, IsWithin}

module _ {S V : Type 0} ⦃sets : SetMapper S⦄ where
  pub authorize_clone_key-Covers :
      (c : Ctx) (clone ttl : ℕ) (s : State S V)
      → Covers 0 s
      → Ensures (Covers 0) (authorize_clone_key c clone ttl s)
  unfolding authorize_clone_key
  authorize_clone_key-Covers c clone ttl s h = ground (
    arith,
    Distinct-insert clone (new_clone_key c ttl) s.clone_key_props h.keys_distinct,
    total-insert unspent clone (new_clone_key c ttl) s.clone_key_props,
    AllValues-insert IsWithin clone (new_clone_key c ttl) s.clone_key_props,
    h.keys_within,
  )

  pub revoke_clone_key-Covers :
      (c : Ctx) (clone : Address) (s : State S V)
      → Covers 0 s
      → Ensures (Covers 0) (revoke_clone_key c clone s)
  unfolding revoke_clone_key direct_egld
  revoke_clone_key-Covers c clone s h = elim (Option-cases (lookup clone s.clone_key_props)) [
    | inl e ↦ ground (arith, e)
    | inr (props, e) ↦ ground (
      arith,
      e,
      Distinct-erase clone s.clone_key_props h.keys_distinct,
      total-erase unspent clone s.clone_key_props h.keys_distinct,
      AllValues-erase IsWithin clone s.clone_key_props h.keys_within,
    )
  ]

module _ {S V : Type 0} where
  pub fund_clone_key-Covers :
      (c : Ctx) (clone : Address) (s : State S V)
      → Covers 0 s
      → Ensures (Covers 0) (fund_clone_key c clone s)
  unfolding fund_clone_key
  fund_clone_key-Covers c clone s h = elim (Option-cases (lookup clone s.clone_key_props)) [
    | inl e ↦ ground (arith, e)
    | inr (props, e) ↦
        let funded = record props { spend_limit = props.spend_limit + c.egld } in
        ground (
          arith,
          e,
          Distinct-insert clone funded s.clone_key_props h.keys_distinct,
          total-insert unspent clone funded s.clone_key_props,
          AllValues-insert IsWithin clone funded s.clone_key_props,
          h.keys_within,
          AllValues-lookup IsWithin clone props s.clone_key_props h.keys_within e,
        )
  ]
