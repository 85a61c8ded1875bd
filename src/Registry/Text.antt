-- ===== src/Registry/Text.antt =====
-- info/info.go: the text of the registry, from the texts of its sections.
use redeo.Base.{
  ℕ, ◌+◌, ◌≡◌, refl, ap, some, List, [], ◌∷◌, ◌++◌, Bytes, codes, arith, true, false, if◌then◌else◌,
  inl, inr, Bool-cases, ◌==◌,
}
use redeo.Registry.{
  Section, Registry, section_string, sections_text, sections_at, registry_string, is_empty,
  write_to,
}

-- each text behind a blank line
abbrev pub behind_blanks : List Bytes → Bytes
behind_blanks [] = []
behind_blanks (t ∷ ts) = codes "\n" ++ (t ++ behind_blanks ts)

-- the texts with a blank line between any two
abbrev pub join : List Bytes → Bytes
join [] = []
join (t ∷ ts) = t ++ behind_blanks ts

abbrev pub keep : Bytes → List Bytes → List Bytes
keep [] ts = ts
keep (c ∷ t) ts = (c ∷ t) ∷ ts

module _ {World : Type 0} (world : World) where
  -- the texts of the sections that have one
  abbrev pub texts : List (Section World) → List Bytes
  texts [] = []
  texts (s ∷ ss) = keep (section_string world (some s)) (texts ss)

  keep_empty :
      (s : Section World) (ts : List Bytes)
      → is_empty s ≡ true
      → keep (section_string world (some s)) ts ≡ ts
  unfolding section_string
  keep_empty s ts h = rw h

  keep_full :
      (s : Section World) (ts : List Bytes)
      → is_empty s ≡ false
      → keep (section_string world (some s)) ts ≡ write_to world s ∷ ts
  unfolding section_string write_to
  keep_full s ts h = rw h

  sections_text-behind_blanks :
      (i : ℕ) (ss : List (Section World))
      → (i == 0) ≡ false
      → sections_text world i ss ≡ behind_blanks (texts ss)
  unfolding sections_text
  sections_text-behind_blanks i [] later = refl
  sections_text-behind_blanks i (s ∷ ss) later =
      let rest = sections_text-behind_blanks (i + 1) ss (ground arith) in
      elim (Bool-cases (is_empty s)) [
        | inl h ↦ rw (h, keep_empty s (texts ss) h) rest
        | inr h ↦
            rw (h, later, keep_full s (texts ss) h)
              (ap (λ t. codes "\n" ++ (write_to world s ++ t)) rest)
      ]

  -- The text of a registry whose first section holds values is made of the texts of the sections
  -- that hold values, in order, with a blank line between any two. Where the first section holds
  -- none, each of those texts has a blank line in front, also the first.
  pub registry_string-texts :
      (r : Registry World) {s : Section World} {ss : List (Section World)}
      → sections_at r.store r.sections ≡ s ∷ ss
      → registry_string world r
        ≡ (if is_empty s then behind_blanks (texts ss) else join (texts (s ∷ ss)))
  unfolding registry_string sections_text
  registry_string-texts r {s} {ss} e =
      let rest = sections_text-behind_blanks 1 ss refl in
      rw e (elim (Bool-cases (is_empty s)) [
        | inl h ↦ rw h rest
        | inr h ↦ rw (h, keep_full s (texts ss) h) (ap (◌++◌ (write_to world s)) rest)
      ])
