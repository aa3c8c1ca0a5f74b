-- ===== src/Statement/Written.antt =====
-- How a statement of each type is written, and that `ClassifyStatement` of
-- internal/connect/types/statement.go reads it: spaces and comments, then the words of the type in
-- capital or small letters.
use exasol_personal.Common.{
  ℕ, ◌+◌, ◌≤◌, ◌≡◌, ◌⊎◌, true, false, none, List, [], ◌∷◌, ◌++◌, Bytes, ◌==◌, All, is_space,
}
use exasol_personal.Statement.{Unicode, after_newline, in_keyword}
use exasol_personal.Statement.Lines.{line_comment}
use exasol_personal.Statement.Blocks.{block_comment, IsBlock}

-- what may stand in front of a statement
pub data Lead : Type 0 where
  blank : ℕ → Lead
  line block : Bytes → Lead

abbrev pub in_front : List Lead → Bytes → Bytes
in_front [] s = s
in_front (blank c ∷ ls) s = c ∷ in_front ls s
in_front (line l ∷ ls) s = line_comment l (in_front ls s)
in_front (block b ∷ ls) s = block_comment b (in_front ls s)

abbrev pub IsLead : Lead → Type 0
IsLead (blank c) = is_space c ≡ true
IsLead (line l) = after_newline l ≡ none
IsLead (block b) = IsBlock b

-- What the tables of Unicode say: the Latin letters are letters, with their capitals, and no space
-- is a letter, a digit or "_".
pub record IsTable (unicode : Unicode) : Type 0 where
  pub capital : (c : ℕ) → 65 ≤ c → c ≤ 90 → (unicode.is_letter c ≡ true) × (unicode.to_upper c ≡ c)
  pub small :
      (c : ℕ)
      → 65 ≤ c
      → c ≤ 90
      → (unicode.is_letter (c + 32) ≡ true) × (unicode.to_upper (c + 32) ≡ c)
  pub space : (c : ℕ) → is_space c ≡ true → in_keyword unicode c ≡ false

-- one letter of a word of capitals
abbrev pub Spells : ℕ → ℕ → Type 0
Spells w c = (65 ≤ w) × (w ≤ 90) × ((c ≡ w) ⊎ (c ≡ w + 32))

abbrev pub AreSpelled : Bytes → Bytes → Type 0
AreSpelled [] [] = Unit {0}
AreSpelled [] (c ∷ k) = ⊥
AreSpelled (w ∷ ws) [] = ⊥
AreSpelled (w ∷ ws) (c ∷ k) = Spells w c × AreSpelled ws k

-- The text spells the word, which is not empty, in capital or small letters.
abbrev pub IsSpelled : Bytes → Bytes → Type 0
IsSpelled w [] = ⊥
IsSpelled w (c ∷ k) = AreSpelled w (c ∷ k)

module _ (unicode : Unicode) where
  -- the text ends, or goes on with what cannot stand in a keyword
  abbrev pub IsEnd : Bytes → Type 0
  IsEnd [] = Unit {0}
  IsEnd (d ∷ s) = in_keyword unicode d ≡ false

  -- something that cannot stand in a keyword, such as a space
  abbrev pub IsGap : Bytes → Type 0
  IsGap [] = ⊥
  IsGap (d ∷ s) = All (λ c. in_keyword unicode c ≡ false) (d ∷ s)

  -- The text begins with these words, the last one whole.
  abbrev pub BeginsWith : List Bytes → Bytes → Type 0
  BeginsWith [] s = ⊥
  BeginsWith (w ∷ []) s =
      (k : Bytes) × (rest : Bytes) × (s ≡ k ++ rest) × IsSpelled w k × IsEnd rest
  BeginsWith (w ∷ v ∷ ws) s =
      (k : Bytes) × (gap : Bytes) × (rest : Bytes) × (s ≡ k ++ (gap ++ rest))
      × IsSpelled w k
      × IsGap gap
      × BeginsWith (v ∷ ws) rest

module _ (unicode : Unicode) (table : IsTable unicode) where
  -- the first character of a statement is a letter
  IsFirst : Bytes → Type 0
  IsFirst [] = ⊥
  IsFirst (c ∷ s) = (is_space c ≡ false) × ((c == b'-') ≡ false) × ((c == b'/') ≡ false)
