-- ===== src/Envelope/Intake.antt =====
-- apps/api/src/hermes-security.ts: `normalizeEvidence`, which cuts untrusted evidence to size.
use wireguard_ops_cockpit.Base.{
  ℕ, suc, ◌-◌, ◌≤◌, ◌≡◌, ◌≢◌, refl, sym, String, false, Option, none, some, List, [], ◌∷◌, ◌==◌,
  ◌||◌, if◌then◌else◌, string_eq, length, filter_map, All, arith, ltb, leb, Option-cases,
  Bool-cases, inl, inr,
}
use mathlib.Core.Path.{subst}
use text.Mathlib.TextEquality.{eq_iff}
use Prim.Native.Char.{code}
use wireguard_ops_cockpit.Base.Options.{◌>>=◌}
use wireguard_ops_cockpit.Base.Json.{Json, lookup, as_string, as_object, as_array}
use wireguard_ops_cockpit.Base.Text.{codes, utf16_length, trim, slice_to}
use wireguard_ops_cockpit.Base.Tables.{limit, length-limit}
use wireguard_ops_cockpit.Envelope.{Evidence}

abbrev pub max_entries : ℕ
max_entries = 20

abbrev pub max_source : ℕ
max_source = 200

abbrev pub max_content : ℕ
max_content = 20000

unfoldable pub normalize_entry : Json → Option Evidence
normalize_entry entry = do
  candidate ← as_object entry
  source_text ← as_string (lookup "source" candidate)
  content_text ← as_string (lookup "content" candidate)
  let source = slice_to max_source (trim source_text)
  let content = slice_to max_content content_text
  if source == "" || content == ""
      then none
      else some (record { source = source; content = content })

unfoldable pub normalize_evidence : Option Json → List Evidence
normalize_evidence value = elim (as_array value) [
  | none ↦ []
  | some entries ↦ filter_map normalize_entry (limit max_entries entries)
]

-- The length that `s.length` gives.
abbrev pub units : String → ℕ
units s = utf16_length (codes s)

units-slice_to : (n : ℕ) (s : String) → units (slice_to n s) ≤ n
unfolding slice_to
units-slice_to n String.[] = omega arith
units-slice_to n (String.◌∷◌ c s) = elim (Bool-cases (ltb 0xffff (code c))) [
  | inl wide ↦
      (let rest = units-slice_to (n - 2) s in
        elim (Bool-cases (leb 2 n)) [
          | inl fits ↦ rw (wide, fits) (rw wide (ground arith))
          | inr cut ↦ rw (wide, cut) (omega arith)
        ])
  | inr narrow ↦
      (let rest = units-slice_to (n - 1) s in
        elim (Bool-cases (leb 1 n)) [
          | inl fits ↦ rw (narrow, fits) (rw narrow (ground arith))
          | inr cut ↦ rw (narrow, cut) (omega arith)
        ])
]

-- What an entry may be.
abbrev pub InBounds : Evidence → Type 0
InBounds e =
    (e.source ≢ "")
    × (e.content ≢ "")
    × (units e.source ≤ max_source)
    × (units e.content ≤ max_content)

normalize_entry-InBounds :
    (entry : Json) (e : Evidence) → normalize_entry entry ≡ some e → InBounds e
unfolding normalize_entry
normalize_entry-InBounds entry e h = elim (Option-cases (as_object entry)) [
  | inl no_object ↦ absurd (ground arith)
  | inr (candidate, is_object) ↦ elim (Option-cases (as_string (lookup "source" candidate))) [
    | inl no_source ↦ absurd (ground arith)
    | inr (source_text, has_source) ↦ elim (Option-cases (as_string (lookup "content" candidate))) [
      | inl no_content ↦ absurd (ground arith)
      | inr (content_text, has_content) ↦
          let short = units-slice_to max_source (trim source_text) in
          let small = units-slice_to max_content content_text in
          let named = eq_iff (slice_to max_source (trim source_text)) "" in
          let filled = eq_iff (slice_to max_content content_text) "" in
          let (some_source, some_content, kept) : ((slice_to max_source (trim source_text) == "")
                ≡ false)
              × ((slice_to max_content content_text == "") ≡ false)
              × (record {
                source = slice_to max_source (trim source_text);
                content = slice_to max_content content_text;
              }
                  ≡ e) =
            ground arith in
          subst InBounds kept ((λ x. ground arith), (λ x. ground arith), short, small)
    ]
  ]
]

module _ {A B : Type 0} (f : A → Option B) where
  skips : (x : A) (xs : List A) → f x ≡ none → filter_map f (x ∷ xs) ≡ filter_map f xs
  skips x xs e = rw (e, filter_map) refl

  keeps : (x : A) (y : B) (xs : List A) → f x ≡ some y → filter_map f (x ∷ xs) ≡ y ∷ filter_map f xs
  keeps x y xs e = rw (e, filter_map) refl

  All-filter_map :
      (P : B → Type 0)
      → ((x : A) (y : B) → f x ≡ some y → P y)
      → (xs : List A) → All P (filter_map f xs) × (length (filter_map f xs) ≤ length xs)
  All-filter_map P h [] = (tt, omega arith)
  All-filter_map P h (x ∷ xs) =
      (let (all, few) = All-filter_map P h xs in
        elim (Option-cases (f x)) [
          | inl left_out ↦
              subst (λ ys. All P ys × (length ys ≤ suc (length xs))) (sym (skips x xs left_out))
                (all, omega arith)
          | inr (y, kept) ↦
              subst (λ ys. All P ys × (length ys ≤ suc (length xs))) (sym (keeps x y xs kept))
                ((h x y kept, all), omega arith)
        ])

-- Whatever a request sends as evidence, what is kept of it is at most 20 entries, each with a source of
-- at most 200 and a content of at most 20,000 UTF-16 units, neither of them empty.
pub normalize_evidence-bounds :
    (value : Option Json)
    → All InBounds (normalize_evidence value) × (length (normalize_evidence value) ≤ 20)
unfolding normalize_evidence
normalize_evidence-bounds value = elim (Option-cases (as_array value)) [
  | inl no_array ↦
      let nothing : normalize_evidence value ≡ [] = ground arith in
      subst (λ ys. All InBounds ys × (length ys ≤ 20)) (sym nothing) (tt, omega arith)
  | inr (entries, given) ↦
      let kept : normalize_evidence value ≡ filter_map normalize_entry (limit max_entries entries) =
        ground arith in
      let (all, few) =
        All-filter_map normalize_entry InBounds normalize_entry-InBounds
          (limit max_entries entries) in
      let cut = length-limit max_entries entries in
      subst (λ ys. All InBounds ys × (length ys ≤ 20)) (sym kept) (all, omega arith)
]
