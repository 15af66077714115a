-- ===== src/Internal/IgnoredPath.antt =====
-- Request paths that are not traced, internal/ignored_path.go.
use mathlib.Core.List.{append_assoc}
use oida.Prelude.{
  Option-cases, Text, bytes, text_eq, text_eq_iff, has_prefix, cut_suffix, has_prefix_sound,
  has_prefix-append, cut_suffix_sound, cut_suffix-append, ◌≡◌, ◌∙◌, subst, ◌≢◌, ◌↔◌, ◌⊎◌, inl, inr,
  Bool, true, false, ◌||◌, none, some, List, [], ◌∷◌, ◌++◌, arith,
}

-- `path == prefix || strings.HasPrefix(path, prefix+"/")`
at_or_below : Text → Text → Bool
at_or_below prefix path = text_eq path prefix || has_prefix (prefix ++ bytes "/") path

-- The test of one entry of IgnorePaths.
matches : Text → Text → Bool
unfolding at_or_below
matches path pattern_text = elim (cut_suffix (bytes "/*") pattern_text) [
  | some prefix ↦ at_or_below prefix path
  | none ↦ text_eq path pattern_text
]

any_matches : List Text → Text → Bool
unfolding matches
any_matches [] path = false
any_matches (p ∷ ps) path = matches path p || any_matches ps path

-- The options hold the mount path of the front end and the ignored paths.
unfoldable pub ignored_path : Text → List Text → Text → Bool
unfolding at_or_below any_matches
ignored_path mount ignored path = at_or_below mount path || any_matches ignored path

-- The path is the prefix, or goes on behind it with a slash.
abbrev pub Under : Text → Text → Type 0
Under prefix path = (path ≡ prefix) ⊎ ((rest : Text) × (path ≡ prefix ++ (bytes "/" ++ rest)))

-- What an entry stands for: `prefix/*` for all at or under the prefix, another entry for itself.
abbrev Covers : Text → Text → Type 0
Covers entry path =
    ((prefix : Text) × (entry ≡ prefix ++ bytes "/*") × Under prefix path)
    ⊎ (((prefix : Text) → entry ≢ prefix ++ bytes "/*") × (path ≡ entry))

abbrev pub AnyCovers : List Text → Text → Type 0
AnyCovers [] path = ⊥
AnyCovers (p ∷ ps) path = Covers p path ⊎ AnyCovers ps path

either : (a b : Bool) → (a || b) ≡ true → (a ≡ true) ⊎ (b ≡ true)
either a b h = ground arith

one_of : (a b : Bool) → (a ≡ true) ⊎ (b ≡ true) → (a || b) ≡ true
one_of a b h = ground arith

at_or_below_iff : (prefix path : Text) → (at_or_below prefix path ≡ true) ↔ Under prefix path
unfolding at_or_below
at_or_below_iff prefix path = (forth, back)
  where
    forth : at_or_below prefix path ≡ true → Under prefix path
    forth h = elim (either (text_eq path prefix) _ h) [
      | inl e ↦ inl ((text_eq_iff path prefix).0 e)
      | inr p ↦
          let (rest, q) = has_prefix_sound (prefix ++ bytes "/") path p in
          inr (rest, q ∙ append_assoc prefix (bytes "/") rest)
    ]

    back : Under prefix path → at_or_below prefix path ≡ true
    back (inl e) = one_of (text_eq path prefix) _ (inl ((text_eq_iff path prefix).1 e))
    back (inr (rest, q)) = one_of (text_eq path prefix) _ (
        inr (
          rw (q, ← append_assoc prefix (bytes "/") rest)
            (has_prefix-append (prefix ++ bytes "/") rest)))

matches_iff : (path entry : Text) → (matches path entry ≡ true) ↔ Covers entry path
unfolding matches
matches_iff path entry = elim (Option-cases (cut_suffix (bytes "/*") entry)) [
  | inl e ↦
      rw (e, matches)
        (
          (λ h. inr (not_starred e, (text_eq_iff path entry).0 h)),
          λ c. elim c [
            | inl (p, q, u) ↦ absurd (not_starred e p q)
            | inr (n, q) ↦ (text_eq_iff path entry).1 q
          ],
        )
  | inr (prefix, e) ↦
      rw (e, matches)
        (
          (λ h. inl (
            prefix,
            cut_suffix_sound (bytes "/*") entry prefix e,
            (at_or_below_iff prefix path).0 h,
          )),
          λ c. elim c [
            | inl (p, q, u) ↦
                (at_or_below_iff prefix path).1
                  (let s : p ≡ prefix = cc (starred p q, e) in subst (λ x. Under x path) s u)
            | inr (n, q) ↦ absurd (n prefix (cut_suffix_sound (bytes "/*") entry prefix e))
          ],
        )
]
  where
    starred : (p : Text) → entry ≡ p ++ bytes "/*" → cut_suffix (bytes "/*") entry ≡ some p
    starred p q = rw q (cut_suffix-append (bytes "/*") p)

    not_starred : cut_suffix (bytes "/*") entry ≡ none → (p : Text) → entry ≢ p ++ bytes "/*"
    not_starred e p q = cc (starred p q)

any_matches_iff : (ps : List Text) (path : Text) → (any_matches ps path ≡ true) ↔ AnyCovers ps path
unfolding any_matches
any_matches_iff [] path = ((λ h. cc), λ h. elim h [ ])
any_matches_iff (p ∷ ps) path = (
  (λ h. elim (either (matches path p) (any_matches ps path) h) [
    | inl m ↦ inl ((matches_iff path p).0 m)
    | inr m ↦ inr ((any_matches_iff ps path).0 m)
  ]),
  λ c. one_of (matches path p) (any_matches ps path) (elim c [
    | inl m ↦ inl ((matches_iff path p).1 m)
    | inr m ↦ inr ((any_matches_iff ps path).1 m)
  ]),
)

-- A path is ignored exactly when it is at or under the mount path of the front end, or one of the
-- entries covers it: `prefix/*` covers the prefix and what follows it behind a slash, and any
-- other entry covers itself alone.
pub ignored_path_iff :
    (mount : Text) (ignored : List Text) (path : Text)
    → (ignored_path mount ignored path ≡ true) ↔ (Under mount path ⊎ AnyCovers ignored path)
unfolding ignored_path
ignored_path_iff mount ignored path = (
  (λ h. elim (either (at_or_below mount path) (any_matches ignored path) h) [
    | inl m ↦ inl ((at_or_below_iff mount path).0 m)
    | inr m ↦ inr ((any_matches_iff ignored path).0 m)
  ]),
  λ c. one_of (at_or_below mount path) (any_matches ignored path) (elim c [
    | inl m ↦ inl ((at_or_below_iff mount path).1 m)
    | inr m ↦ inr ((any_matches_iff ignored path).1 m)
  ]),
)
