-- ===== src/Dependency/Plan/Validation.antt =====
-- internal/dependency/plan.go: the items that `Build` accepts, but for cycles.
use pulp.Prelude.{
  ℕ, suc, ◌≡◌, ◌≢◌, refl, ◌∙◌, Bool, true, false, ◌||◌, List, [], ◌∷◌, ◌++◌, ok, ◌==◌, contains,
  if◌then◌else◌, arith, inl, inr, Result-cases,
}
use mathlib.Core.List.{append-nil, append_assoc}
use pulp.Prelude.Text.{Text, text_eq, trim_space, is_empty}
use pulp.Prelude.Dict.{Dict, lookup, insert, lookup-insert}
use pulp.Prelude.Sets.{contains-append}
use pulp.Prelude.Sorting.{stable_sort, contains-stable_sort, Distinct-stable_sort}
use pulp.Dependency.Plan.{
  Item, value_at, has, number_items, Links, link, link_item, link_items, sort_values, sort_links,
  ordinal_less,
}
use pulp.Dependency.Plan.Edges.{ids, deps_of, dependents_of, IsGraph, deps_of-link, link-IsGraph}

-- Names that are not blank and not repeated, beside those that are `seen`.
abbrev pub ValidIds : List Text → List Item → Type 0
ValidIds seen [] = Unit
ValidIds seen (item ∷ items) =
    (is_empty (trim_space item.id) ≡ false)
    × (contains seen item.id ≡ false)
    × ValidIds (item.id ∷ seen) items

-- Dependencies on other nodes, none of them repeated.
abbrev pub ValidDeps : List Text → Text → List Text → List Text → Type 0
ValidDeps nodes id seen [] = Unit
ValidDeps nodes id seen (d ∷ ds) =
    (d ≢ id)
    × (contains nodes d ≡ true)
    × (contains seen d ≡ false)
    × ValidDeps nodes id (d ∷ seen) ds

abbrev pub ValidItems : List Text → List Item → Type 0
ValidItems nodes [] = Unit
ValidItems nodes (item ∷ items) =
    ValidDeps nodes item.id [] item.depends_on × ValidItems nodes items

abbrev pub IsKeys : Dict Text ℕ → List Text → Type 0
IsKeys d nodes = (k : Text) → has k d ≡ contains nodes k

module _ (n : ℕ) (item : Item) (items : List Item) (seen : List Text) (d : Dict Text ℕ)
    (keys : IsKeys d seen) where
  IsKeys-insert : IsKeys (insert item.id n d) (item.id ∷ seen)
  IsKeys-insert k = ground (arith, lookup-insert k item.id n d, keys k)

pub number_items-ok :
    (n : ℕ) (items : List Item) (seen : List Text) (d d' : Dict Text ℕ)
    → IsKeys d seen
    → number_items n items d ≡ ok d'
    → ValidIds seen items
unfolding number_items
number_items-ok n [] seen d d' keys h = tt
number_items-ok n (item ∷ items) seen d d' keys h = ground (
  arith,
  keys item.id,
  number_items-ok (suc n) items (item.id ∷ seen) (insert item.id n d) d'
      (IsKeys-insert n item items seen d keys),
)

-- Valid names are numbered, and the numbered names are all of them.
pub number_items_total :
    (n : ℕ) (items : List Item) (seen : List Text) (d : Dict Text ℕ)
    → IsKeys d seen
    → ValidIds seen items
    → (d' : Dict Text ℕ) × (number_items n items d ≡ ok d')
      × ((k : Text) → has k d' ≡ (contains seen k || contains (ids items) k))
unfolding number_items
number_items_total n [] seen d keys h = (d, refl, λ k. ground (arith, keys k))
number_items_total n (item ∷ items) seen d keys h =
    let (d', eq, has_eq) =
      number_items_total (suc n) items (item.id ∷ seen) (insert item.id n d)
        (IsKeys-insert n item items seen d keys) h.2 in
    (d', ground (arith, keys item.id), λ k. ground (arith, has_eq k))

abbrev pub link_deps : Text → List Text → Links → Links
link_deps id [] l = l
link_deps id (d ∷ ds) l = link_deps id ds (link id d l)

abbrev pub link_all : List Item → Links → Links
link_all [] l = l
link_all (item ∷ items) l = link_all items (link_deps item.id item.depends_on l)

module _ (nodes : List Text) (ordinals : Dict Text ℕ) (keys : IsKeys ordinals nodes) where
  link_item-ok :
      (id : Text) (seen ds : List Text) (l l' : Links)
      → link_item ordinals id seen ds l ≡ ok l'
      → ValidDeps nodes id seen ds
  unfolding link_item
  link_item-ok id seen [] l l' h = tt
  link_item-ok id seen (d ∷ ds) l l' h =
      ground (arith, keys d, link_item-ok id (d ∷ seen) ds (link id d l) l')

  link_item_total :
      (id : Text) (seen ds : List Text) (l : Links)
      → ValidDeps nodes id seen ds
      → link_item ordinals id seen ds l ≡ ok (link_deps id ds l)
  unfolding link_item
  link_item_total id seen [] l h = refl
  link_item_total id seen (d ∷ ds) l h =
      ground (arith, keys d, link_item_total id (d ∷ seen) ds (link id d l))

  pub link_items-ok :
      (items : List Item) (l l' : Links)
      → link_items ordinals items l ≡ ok l'
      → ValidItems nodes items
  unfolding link_items
  link_items-ok [] l l' h = tt
  link_items-ok (item ∷ items) l l' h =
      elim (Result-cases (link_item ordinals item.id [] item.depends_on l)) [
        | inl (m, eq) ↦ (
          link_item-ok item.id [] item.depends_on l m eq,
          link_items-ok items m l' (rw (eq) at h),
        )
        | inr (x, eq) ↦ absurd (ground arith)
      ]

  pub link_items_total :
      (items : List Item) (l : Links)
      → ValidItems nodes items
      → link_items ordinals items l ≡ ok (link_all items l)
  unfolding link_items
  link_items_total [] l h = refl
  link_items_total (item ∷ items) l h =
      rw (link_item_total item.id [] item.depends_on l h.0)
        (link_items_total items (link_deps item.id item.depends_on l) h.1)

-- The edges of one node are added behind those that it has, and the other nodes keep theirs.
deps_of-link_deps :
    (id : Text) (ds : List Text) (l : Links) (x : Text)
    → deps_of (link_deps id ds l) x ≡ (if x == id then deps_of l id ++ ds else deps_of l x)
deps_of-link_deps id [] l x = ground (arith, append-nil (deps_of l id))
deps_of-link_deps id (d ∷ ds) l x = ground (
  arith,
  deps_of-link_deps id ds (link id d l) x,
  deps_of-link id d l x,
  deps_of-link id d l id,
  append_assoc (deps_of l id) (d ∷ []) ds,
)

link_deps-IsGraph :
    (nodes : List Text) (id : Text) (seen ds : List Text) (l : Links)
    → contains nodes id ≡ true
    → ((k : Text) → contains (deps_of l id) k ≡ contains seen k)
    → ValidDeps nodes id seen ds
    → IsGraph nodes l
    → IsGraph nodes (link_deps id ds l)
link_deps-IsGraph nodes id seen [] l here same h g = g
link_deps-IsGraph nodes id seen (d ∷ ds) l here same h g =
    link_deps-IsGraph nodes id (d ∷ seen) ds (link id d l) here
      (λ k.
        ground (arith, deps_of-link id d l id, contains-append (deps_of l id) (d ∷ []) k, same k))
      h.3 (link-IsGraph id d l nodes here h.1 (same d ∙ h.2) g)

-- Every item has the dependencies that it lists, in its order.
abbrev pub DepsAre : Links → List Item → Type 0
DepsAre l [] = Unit
DepsAre l (item ∷ items) = (deps_of l item.id ≡ item.depends_on) × DepsAre l items

link_all-other :
    (items : List Item) (l : Links) (x : Text)
    → contains (ids items) x ≡ false
    → deps_of (link_all items l) x ≡ deps_of l x
link_all-other [] l x h = refl
link_all-other (item ∷ items) l x h = ground (
  arith,
  link_all-other items (link_deps item.id item.depends_on l) x,
  deps_of-link_deps item.id item.depends_on l x,
)

-- No name that is seen comes again.
pub ValidIds-fresh :
    (seen : List Text) (items : List Item) (x : Text)
    → ValidIds seen items
    → contains seen x ≡ true
    → contains (ids items) x ≡ false
ValidIds-fresh seen [] x h c = refl
ValidIds-fresh seen (item ∷ items) x h c =
    ground (arith, h.1, ValidIds-fresh (item.id ∷ seen) items x h.2)

pub link_all-DepsAre :
    (seen : List Text) (items : List Item) (l : Links)
    → ValidIds seen items
    → ((x : Text) → contains seen x ≡ false → deps_of l x ≡ [])
    → DepsAre (link_all items l) items
link_all-DepsAre seen [] l h none_yet = tt
link_all-DepsAre seen (item ∷ items) l h none_yet = (
  ground (
    arith,
    link_all-other items (link_deps item.id item.depends_on l) item.id
        (ValidIds-fresh (item.id ∷ seen) items item.id h.2 (ground arith)),
    deps_of-link_deps item.id item.depends_on l item.id,
    none_yet item.id h.1,
  ),
  link_all-DepsAre (item.id ∷ seen) items (link_deps item.id item.depends_on l) h.2
      (λ x c. ground (arith, deps_of-link_deps item.id item.depends_on l x, none_yet x)),
)

pub link_all-IsGraph :
    (nodes seen : List Text) (items : List Item) (l : Links)
    → ValidIds seen items
    → ValidItems nodes items
    → ((x : Text) → contains (ids items) x ≡ true → contains nodes x ≡ true)
    → ((x : Text) → contains seen x ≡ false → deps_of l x ≡ [])
    → IsGraph nodes l
    → IsGraph nodes (link_all items l)
link_all-IsGraph nodes seen [] l h v inside none_yet g = g
link_all-IsGraph nodes seen (item ∷ items) l h v inside none_yet g =
    link_all-IsGraph nodes (item.id ∷ seen) items (link_deps item.id item.depends_on l) h.2 v.1
      (λ x c. inside x (ground arith))
      (λ x c. ground (arith, deps_of-link_deps item.id item.depends_on l x, none_yet x))
      (link_deps-IsGraph nodes item.id [] item.depends_on l (inside item.id (ground arith))
        (λ k. ground (arith, none_yet item.id h.1)) v.0 g)

value_at-sort_values :
    (less : Text → Text → Bool) (x : Text) (d : Dict Text (List Text))
    → value_at x (sort_values less d) [] ≡ stable_sort less (value_at x d [])
unfolding sort_values lookup stable_sort
value_at-sort_values less x [] = refl
value_at-sort_values less x ((k, v) ∷ d) = ground (arith, value_at-sort_values less x d)

pub sort_links-IsGraph :
    (nodes : List Text) (ordinals : Dict Text ℕ) (l : Links)
    → IsGraph nodes l
    → IsGraph nodes (sort_links ordinals l)
unfolding sort_links
sort_links-IsGraph nodes ordinals l g = record {
  symmetric = λ x y.
      rw (value_at-sort_values (ordinal_less ordinals) y l.dependents)
        (rw (contains-stable_sort (ordinal_less ordinals) (dependents_of l y) x) (g.symmetric x y));
  distinct_deps = g.distinct_deps;
  distinct_dependents = λ x.
      rw (value_at-sort_values (ordinal_less ordinals) x l.dependents) (
        Distinct-stable_sort (ordinal_less ordinals) (dependents_of l x) (g.distinct_dependents x));
  targets = g.targets;
  sources = g.sources;
}
