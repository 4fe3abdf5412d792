-- ===== src/Fusion/Plan/Compatible.antt =====
-- internal/fusion/plan.go: what `compatible` lets into one group.
use pulp.Prelude.{
  Option, ◌≡◌, ◌⊎◌, inl, inr, Bool, true, false, List, [], ◌∷◌, ◌++◌, none, ◌==◌, contains, arith,
  All, Option-cases,
}
use pulp.Prelude.Sets.{Distinct, subset_of_length-le}
use pulp.Prelude.Text.{Text, text_eq}
use pulp.Manifest.Config.{ConfigTable}
use pulp.Manifest.Fields.{has_space}
use pulp.Manifest.Cells.{CellSpec}
use pulp.Fusion.Plan.{
  within, same_set, member_abi_v2, unfit, differs, check_members, compatible, group_key,
}

within-contains :
    (a b : List Text) (v : Text) → within a b ≡ true → contains b v ≡ true → contains a v ≡ true
unfolding within
within-contains a [] v h c = absurd cc
within-contains a (w ∷ b) v h c = ground (arith, within-contains a b v)

-- On a list without repetition the test of the two lists is that of their elements.
same_set-contains :
    (a b : List Text) → Distinct b → same_set a b ≡ true → (v : Text) → contains a v ≡ contains b v
unfolding same_set
same_set-contains a b d h v = ground (
  arith,
  within-contains a b v (ground arith),
  subset_of_length-le b a d (λ w c. within-contains a b w (ground arith) c) (ground arith) v,
)

-- Texts before the first NUL.
nul_injective :
    (g h a b : Text)
    → has_space g ≡ false
    → has_space h ≡ false
    → g ++ 0 ∷ a ≡ h ++ 0 ∷ b
    → (g ≡ h) × (a ≡ b)
unfolding has_space
nul_injective [] [] a b p q e = ground arith
nul_injective [] (y ∷ h) a b p q e = absurd (ground arith)
nul_injective (x ∷ g) [] a b p q e = absurd (ground arith)
nul_injective (x ∷ g) (y ∷ h) a b p q e =
    ground (arith, nul_injective g h a b (ground arith) (ground arith) (ground arith))

module _ {Other : Type 0} where
  pub group_key-injective :
      (c d : CellSpec Other)
      → has_space c.execution.group ≡ false
      → has_space d.execution.group ≡ false
      → group_key c ≡ group_key d
      → (c.execution.group ≡ d.execution.group) × (c.execution.abi ≡ d.execution.abi)
  unfolding group_key
  group_key-injective c d p q e =
      nul_injective c.execution.group d.execution.group c.execution.abi d.execution.abi p q e

  -- A cell that can share an instance under an interface.
  pub record IsFit (abi : Text) (c : CellSpec Other) : Type 0 where
    pub shared_thread : c.dedicated_thread ≡ false
    pub snapshots : (c.snapshotable ≡ false) ⊎ (abi ≡ member_abi_v2)

  unfit-IsFit :
      (abi : Text) (c : CellSpec Other) → unfit (abi == member_abi_v2) c ≡ none → IsFit abi c
  unfolding unfit
  unfit-IsFit abi c h = ground arith

module _ {Other : Type 0}
    (same_config : Option (ConfigTable Other) → Option (ConfigTable Other) → Bool) where
  -- A cell that is run as another one is.
  pub record IsAlike (base c : CellSpec Other) : Type 0 where
    pub restart : c.restart ≡ base.restart
    pub memory : c.max_memory_pages ≡ base.max_memory_pages
    pub timeout : c.call_timeout_ms ≡ base.call_timeout_ms
    pub capabilities : (v : Text) → contains c.capabilities v ≡ contains base.capabilities v
    pub config : (base.execution.abi ≡ member_abi_v2) ⊎ (same_config c.config base.config ≡ true)

  differs-IsAlike :
      (base c : CellSpec Other)
      → Distinct base.capabilities
      → differs same_config (base.execution.abi == member_abi_v2) base c ≡ none
      → IsAlike base c
  unfolding differs
  differs-IsAlike base c d h = record {
    restart = ground arith;
    memory = ground arith;
    timeout = ground arith;
    capabilities = same_set-contains c.capabilities base.capabilities d (ground arith);
    config = ground arith;
  }

  check_members-All :
      (base : CellSpec Other) (rest : List (CellSpec Other))
      → Distinct base.capabilities
      → check_members same_config (base.execution.abi == member_abi_v2) base rest ≡ none
      → All (λ c. IsFit base.execution.abi c × IsAlike base c) rest
  unfolding check_members
  check_members-All base [] d h = tt
  check_members-All base (c ∷ rest) d h =
      elim (Option-cases (unfit (base.execution.abi == member_abi_v2) c)) [
        | inr (why, e) ↦ absurd (ground arith)
        | inl e ↦
            elim (Option-cases (differs same_config (base.execution.abi == member_abi_v2) base c)) [
              | inr (why, e') ↦ absurd (ground arith)
              | inl e' ↦ (
                (unfit-IsFit base.execution.abi c e, differs-IsAlike base c d e'),
                check_members-All base rest d (ground arith),
              )
            ]
      ]

  pub compatible-All :
      (base : CellSpec Other) (rest : List (CellSpec Other))
      → Distinct base.capabilities
      → compatible same_config (base ∷ rest) ≡ none
      → IsFit base.execution.abi base × All (λ c. IsFit base.execution.abi c × IsAlike base c) rest
  unfolding compatible
  compatible-All base rest d h =
      elim (Option-cases (unfit (base.execution.abi == member_abi_v2) base)) [
        | inr (why, e) ↦ absurd (ground arith)
        | inl e ↦
            (unfit-IsFit base.execution.abi base e, check_members-All base rest d (ground arith))
      ]
