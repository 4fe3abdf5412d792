-- ===== src/Ext/Scope.antt =====
-- ext/scope.go: the placement of a cell in an application, its validation, and the names made of it.
pub mod Names
pub mod Validity
use pulp.Prelude.{
  Bool, ◌&&◌, ◌||◌, List, [], ◌∷◌, ◌++◌, Result, ok, err, fail_if, ◌>>◌, Eq, ◌==◌, if◌then◌else◌,
  ℕ_discrete,
}
use pulp.Prelude.Text.{Text, text_eq, codes, trim_space, contains_rune, is_empty, byte_len}
use pulp.Prelude.Decimal.{decimal}

pub record Scope : Type 0 where
  pub application_id : Text
  pub application_instance_id : Text
  pub cell_id : Text
  pub cell_instance_id : Text

unfoldable pub scope_dec : Discrete Scope
scope_dec = hlevel ℕ_discrete

instance unfoldable pub scope_eq : Eq Scope
unfolding scope_dec ℕ_discrete
scope_eq = record { dec = scope_dec }

-- The four fields that `Validate` walks through.
pub data Field : Type 0 where
  application_field application_instance_field cell_field cell_instance_field : Field

pub data ScopeError : Type 0 where
  required : Field → ScopeError
  contains_nul : Field → ScopeError

abbrev pub is_blank : Text → Bool
is_blank s = is_empty (trim_space s)

check_field : Field → Text → Result ScopeError (Unit {0})
check_field f value = do
  fail_if (is_blank value) (required f)
  fail_if (contains_rune 0 value) (contains_nul f)

unfoldable pub validate : Scope → Result ScopeError (Unit {0})
unfolding check_field
validate s = do
  check_field application_field s.application_id
  check_field application_instance_field s.application_instance_id
  check_field cell_field s.cell_id
  check_field cell_instance_field s.cell_instance_id

unfoldable pub new_scope : Text → Text → Text → Text → Result ScopeError Scope
new_scope app instance_id cell cell_instance = do let s = scope; validate s; ok s
  where
    scope : Scope
    scope = record {
      application_id = app;
      application_instance_id = instance_id;
      cell_id = cell;
      cell_instance_id = cell_instance;
    }

abbrev default_text : Text
default_text = codes "default"

unfoldable pub legacy_scope : Text → Scope
legacy_scope cell = record {
  application_id = codes "legacy";
  application_instance_id = default_text;
  cell_id = if is_blank cell then default_text else cell;
  cell_instance_id = default_text;
}

-- The value that an extension sees as its cell: none, one with a name alone, or a `ScopedCell`.
pub data Cell : Type 0 where
  nil_cell : Cell
  plain : Text → Cell
  scoped : Text → Scope → Cell

pub data CellError : Type 0 where
  no_cell : CellError
  bad_scope : ScopeError → CellError

unfoldable pub validated_scope_of : Cell → Result CellError Scope
validated_scope_of nil_cell = err no_cell
validated_scope_of (plain name) = ok (legacy_scope name)
validated_scope_of (scoped name s) = elim (validate s) [ ok _ ↦ ok s | err e ↦ err (bad_scope e) ]

unfoldable pub scope_of : Cell → Scope
unfolding validated_scope_of
scope_of nil_cell = legacy_scope default_text
scope_of (plain name) = elim (validated_scope_of (plain name)) [
  | ok s ↦ s
  | err _ ↦ legacy_scope name
]
scope_of (scoped name s) = elim (validated_scope_of (scoped name s)) [
  | ok t ↦ t
  | err _ ↦ legacy_scope name
]

unfoldable pub effective_scope : Scope → Text → Scope
effective_scope s cell_name = elim (validate s) [ ok _ ↦ s | err _ ↦ legacy_scope cell_name ]

unfoldable pub is_legacy : Scope → Bool
is_legacy s =
    (s.application_id == codes "legacy")
    && (s.application_instance_id == default_text)
    && (s.cell_instance_id == default_text)

-- `%d:%s`: the length in bytes before the part.
unfoldable pub frame : Text → Text
frame part = decimal (byte_len part) ++ b':' ∷ part

-- The loop of `RoutingID` and `ResourceKey.String`: the parts framed, with a bar between them.
unfoldable pub join_frames : List Text → Text
unfolding frame
join_frames [] = []
join_frames (p ∷ []) = frame p
join_frames (p ∷ q ∷ ps) = frame p ++ b'|' ∷ join_frames (q ∷ ps)

abbrev pub scope_parts : Scope → List Text
scope_parts s = s.application_id ∷ s.application_instance_id ∷ s.cell_id ∷ s.cell_instance_id ∷ []

unfoldable pub routing_id : Scope → Text
unfolding join_frames
routing_id s = codes "pulp-scope/v1/" ++ join_frames (scope_parts s)

unfoldable pub cell_id_of : Cell → Text
unfolding routing_id
cell_id_of nil_cell = []
cell_id_of (plain name) = name
cell_id_of (scoped name s) =
    let t = scope_of (scoped name s) in if is_legacy t then name else routing_id t

pub record ResourceKey : Type 0 where
  pub scope : Scope
  pub resource_type : Text
  pub resource_id : Text

key_dec : Discrete ResourceKey
key_dec = hlevel (ℕ_discrete, scope_dec)

instance unfoldable pub key_eq : Eq ResourceKey
unfolding key_dec scope_dec ℕ_discrete
key_eq = record { dec = key_dec }

pub data KeyError : Type 0 where
  key_scope : ScopeError → KeyError
  type_required id_required key_nul : KeyError

unfoldable pub resource_key : Scope → Text → Text → Result KeyError ResourceKey
resource_key s type_name id = elim (validate s) [
  | err e ↦ err (key_scope e)
  | ok _ ↦ do
    fail_if (is_blank type_name) type_required
    fail_if (is_blank id) id_required
    fail_if (contains_rune 0 type_name || contains_rune 0 id) key_nul
    ok (record { scope = s; resource_type = type_name; resource_id = id })
]

unfoldable pub key_string : ResourceKey → Text
unfolding join_frames
key_string k = join_frames (scope_parts k.scope ++ k.resource_type ∷ k.resource_id ∷ [])
