-- ===== src/Dependency/Plan/Edges.antt =====
-- internal/dependency/plan.go: what the validation of the items leaves behind.
use pulp.Prelude.{
  ◌≡◌, refl, ◌∙◌, true, false, List, [], ◌∷◌, ◌++◌, ◌==◌, contains, if◌then◌else◌, arith,
  Bool-cases, inl, inr,
}
use pulp.Prelude.Text.{Text, text_eq}
use pulp.Prelude.Dict.{lookup, lookup-insert}
use pulp.Prelude.Sets.{Distinct, Distinct-join, contains-append}
use pulp.Dependency.Plan.{Item, value_at, Links, link}

abbrev pub ids : List Item → List Text
ids [] = []
ids (item ∷ items) = item.id ∷ ids items

abbrev pub deps_of : Links → Text → List Text
deps_of l x = value_at x l.dependencies []

abbrev pub dependents_of : Links → Text → List Text
dependents_of l x = value_at x l.dependents []

-- The two directions agree, no edge is listed twice, and every edge joins two of the nodes.
pub record IsGraph (nodes : List Text) (l : Links) : Type 0 where
  pub symmetric : (x y : Text) → contains (dependents_of l y) x ≡ contains (deps_of l x) y
  pub distinct_deps : (x : Text) → Distinct (deps_of l x)
  pub distinct_dependents : (x : Text) → Distinct (dependents_of l x)
  pub targets : (x y : Text) → contains (deps_of l x) y ≡ true → contains nodes y ≡ true
  pub sources : (x y : Text) → contains (deps_of l x) y ≡ true → contains nodes x ≡ true

unfoldable pub empty_links : Links
empty_links = record { dependencies = []; dependents = [] }

pub empty-IsGraph : (nodes : List Text) → IsGraph nodes empty_links
unfolding empty_links lookup
empty-IsGraph nodes = record {
  symmetric = λ x y. refl;
  distinct_deps = λ x. tt;
  distinct_dependents = λ x. tt;
  targets = λ x y h. absurd (ground arith);
  sources = λ x y h. absurd (ground arith);
}

module _ (id d : Text) (l : Links) where
  pub deps_of-link :
      (x : Text)
      → deps_of (link id d l) x ≡ (if x == id then deps_of l id ++ d ∷ [] else deps_of l x)
  unfolding link
  deps_of-link x =
      ground (arith, lookup-insert x id (value_at id l.dependencies [] ++ d ∷ []) l.dependencies)

  dependents_of-link :
      (x : Text)
      → dependents_of (link id d l) x
        ≡ (if x == d then dependents_of l d ++ id ∷ [] else dependents_of l x)
  unfolding link
  dependents_of-link x =
      ground (arith, lookup-insert x d (value_at d l.dependents [] ++ id ∷ []) l.dependents)

  Distinct-snoc :
      (a : Text) (xs : List Text) → Distinct xs → contains xs a ≡ false → Distinct (xs ++ a ∷ [])
  Distinct-snoc a xs dx fresh = Distinct-join xs (a ∷ []) dx (refl, tt) (λ b c. ground arith)

  pub link-IsGraph :
      (nodes : List Text)
      → contains nodes id ≡ true
      → contains nodes d ≡ true
      → contains (deps_of l id) d ≡ false
      → IsGraph nodes l
      → IsGraph nodes (link id d l)
  link-IsGraph nodes hid hd fresh g = record {
    symmetric = λ x y. ground (
      arith,
      deps_of-link x,
      dependents_of-link y,
      g.symmetric x y,
      contains-append (deps_of l id) (d ∷ []) y,
      contains-append (dependents_of l d) (id ∷ []) x,
    );
    distinct_deps = λ x. elim (Bool-cases (x == id)) [
      | inl here ↦
          rw (deps_of-link x) (rw here (Distinct-snoc d (deps_of l id) (g.distinct_deps id) fresh))
      | inr other ↦ rw (deps_of-link x) (rw other (g.distinct_deps x))
    ];
    distinct_dependents = λ x. elim (Bool-cases (x == d)) [
      | inl here ↦ rw (dependents_of-link x) (
          rw here (
            Distinct-snoc id (dependents_of l d) (g.distinct_dependents d)
              (g.symmetric id d ∙ fresh)))
      | inr other ↦ rw (dependents_of-link x) (rw other (g.distinct_dependents x))
    ];
    targets = λ x y h.
        ground (arith, deps_of-link x, g.targets x y, contains-append (deps_of l id) (d ∷ []) y);
    sources = λ x y h. ground (arith, deps_of-link x, g.sources x y);
  }
