-- ===== src/Ext/Scope/Names.antt =====
-- ext/scope.go, `RoutingID` and `ResourceKey.String`: the names keep placements and resources apart.
use mathlib.Core.List.{append-nil, append_assoc}
use pulp.Prelude.{ℕ, ◌≤◌, ◌≡◌, refl, sym, ap, ◌∙◌, List, [], ◌∷◌, ◌++◌, arith, length, All}
use pulp.Prelude.Text.{Text, codes, rune_len, byte_len}
use pulp.Prelude.Decimal.{IsDigit, decimal, decimal-IsDigit, decimal-injective}
use pulp.Ext.Scope.{Scope, frame, join_frames, scope_parts, routing_id, ResourceKey, key_string}

append_cancel_left : (p r s : Text) → p ++ r ≡ p ++ s → r ≡ s
append_cancel_left [] r s e = e
append_cancel_left (c ∷ p) r s e = append_cancel_left p r s (ground arith)

-- No digit is the colon behind the digits, so the first colon ends them.
digits_split :
    (a b r s : Text)
    → All IsDigit a
    → All IsDigit b
    → a ++ b':' ∷ r ≡ b ++ b':' ∷ s
    → (a ≡ b) × (r ≡ s)
digits_split [] [] r s da db e = ground arith
digits_split [] (d ∷ b) r s da db e = absurd (ground arith)
digits_split (c ∷ a) [] r s da db e = absurd (ground arith)
digits_split (c ∷ a) (d ∷ b) r s da db e = ground (arith, digits_split a b r s)

rune_len_pos : (c : ℕ) → 1 ≤ rune_len c
unfolding rune_len
rune_len_pos c = ground arith

-- Two prefixes of one text that take as many bytes are the same.
bytes_split : (p q r s : Text) → byte_len p ≡ byte_len q → p ++ r ≡ q ++ s → (p ≡ q) × (r ≡ s)
unfolding byte_len
bytes_split [] [] r s l e = ground arith
bytes_split [] (d ∷ q) r s l e = absurd (omega (arith, rune_len_pos d))
bytes_split (c ∷ p) [] r s l e = absurd (omega (arith, rune_len_pos c))
bytes_split (c ∷ p) (d ∷ q) r s l e = ground (arith, bytes_split p q r s)

frame_split : (p q r s : Text) → frame p ++ r ≡ frame q ++ s → (p ≡ q) × (r ≡ s)
unfolding frame
frame_split p q r s e =
    let (lengths, texts) =
      digits_split (decimal (byte_len p)) (decimal (byte_len q)) (p ++ r) (q ++ s)
        (decimal-IsDigit (byte_len p)) (decimal-IsDigit (byte_len q))
        (sym (append_assoc (decimal (byte_len p)) (b':' ∷ p) r)
          ∙ e
          ∙ append_assoc (decimal (byte_len q)) (b':' ∷ q) s) in
    bytes_split p q r s (decimal-injective (byte_len p) (byte_len q) lengths) texts

join_frames-injective :
    (ps qs : List Text) → length ps ≡ length qs → join_frames ps ≡ join_frames qs → ps ≡ qs
unfolding join_frames
join_frames-injective [] [] l e = refl
join_frames-injective [] (q ∷ qs) l e = absurd (omega arith)
join_frames-injective (p ∷ ps) [] l e = absurd (omega arith)
join_frames-injective (p ∷ []) (q ∷ []) l e =
    ap (λ t. t ∷ [])
      (frame_split p q [] [] (append-nil (frame p) ∙ e ∙ sym (append-nil (frame q)))).0
join_frames-injective (p ∷ []) (q ∷ q' ∷ qs) l e = absurd (omega arith)
join_frames-injective (p ∷ p' ∷ ps) (q ∷ []) l e = absurd (omega arith)
join_frames-injective (p ∷ p' ∷ ps) (q ∷ q' ∷ qs) l e =
    let (heads, rest) = frame_split p q _ _ e in
    cc (heads, join_frames-injective (p' ∷ ps) (q' ∷ qs) (omega arith) (ground arith))

-- Two placements with the same routing target are the same placement, whatever the identifiers hold.
pub routing_id-injective : (s t : Scope) → routing_id s ≡ routing_id t → s ≡ t
unfolding routing_id
routing_id-injective s t e =
    let parts =
      join_frames-injective (scope_parts s) (scope_parts t) refl
        (append_cancel_left (codes "pulp-scope/v1/") _ _ e) in
    ground arith

-- Two resource keys with the same diagnostic string are the same key.
pub key_string-injective : (k l : ResourceKey) → key_string k ≡ key_string l → k ≡ l
unfolding key_string
key_string-injective k l e =
    let parts =
      join_frames-injective (scope_parts k.scope ++ k.resource_type ∷ k.resource_id ∷ [])
        (scope_parts l.scope ++ l.resource_type ∷ l.resource_id ∷ []) refl e in
    ground arith
