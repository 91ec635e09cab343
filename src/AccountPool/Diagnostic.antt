-- ===== src/AccountPool/Diagnostic.antt =====
-- opencode-account-pool.mjs: the admin diagnostic agrees with what `select` does.
use tokligence_gateway.Prelude.{
  ℕ, ◌≡◌, ◌↔◌, inl, inr, true, false, List, arith, Text, In, refl, Bool-cases, ltb,
}
use tokligence_gateway.AccountPool.{
  Account, Endpoint, World, Pool, eligible, reason, is_eligible, cooldown, cooling_until,
}
use tokligence_gateway.AccountPool.Selection.{IsCandidate}

module _ (w : World) (p : Pool) (endpoint : Endpoint) (model : Text) (exclude : List Text)
    (at : ℕ) where
  -- The diagnostic calls an account eligible exactly when `select` could choose it at that time,
  -- and cooling down exactly when `select` could choose it with cooling accounts alone.
  pub reason_iff :
      (accounts : List Account) (a : Account)
      → In a accounts
      → ((reason w p endpoint model exclude at a ≡ is_eligible)
          ↔ IsCandidate w accounts p endpoint model exclude false at a)
        × ((reason w p endpoint model exclude at a ≡ cooldown) ↔ (
            IsCandidate w accounts p endpoint model exclude true at a
            × ¬ IsCandidate w accounts p endpoint model exclude false at a))
  reason_iff accounts a m = (
    (
      λ h. record {
        listed = m;
        free = unfold reason in ground arith;
        able = unfold reason eligible in ground arith;
        rested = inr (unfold reason in ground arith);
      },
      λ c. unfold reason eligible in ground (arith, c.free, c.able, c.rested),
    ),
    (
      λ h. (
        record {
          listed = m;
          free = unfold reason in ground arith;
          able = unfold reason eligible in ground arith;
          rested = inl refl;
        },
        λ c. unfold reason in ground (arith, c.rested),
      ),
      λ x. elim (Bool-cases (ltb at (cooling_until p a.id))) [
        | inl cools ↦ unfold reason eligible in ground (arith, x.0.free, x.0.able)
        | inr rests ↦ absurd (
            x.1 (record {
              listed = m;
              free = x.0.free;
              able = x.0.able;
              rested = inr (ground arith);
            }))
      ],
    ),
  )
