-- ===== src/LogObject/Scan.antt =====
-- A concrete scanner of two words: the law of fscanf() can hold.
use monolinux_c_library.Prelude.{
  ℕ, ◌≡◌, refl, ap, ◌∙◌, [], ◌∷◌, ◌++◌, Option, none, some, true, false, All, if◌then◌else◌, arith,
  length, append_assoc, ltb, ◌≤◌,
}
use monolinux_c_library.Prelude.Text.{Text}
use monolinux_c_library.LogObject.Fuel.{Reads}
use monolinux_c_library.LogObject.File.{Scanner, Scans, is_space}

unfoldable pub span : Text → Text × Text
span [] = ([], [])
span (c ∷ file) =
    let (word, rest) = span file in if is_space c then ([], c ∷ file) else (c ∷ word, rest)

abbrev second_word : Text → Text → Option (Text × Text × Text)
second_word name [] = none
second_word name (c ∷ file) =
    let (level, rest) = span file in if ltb 0 (length level) then some (name, level, rest) else none

unfoldable pub scan_words : Scanner
unfolding span
scan_words file = let (name, rest) = span file in second_word name rest

span_word :
    (word : Text) (c : ℕ) (rest : Text)
    → All (λ c. is_space c ≡ false) word
    → is_space c ≡ true
    → span (word ++ (c ∷ rest)) ≡ (word, c ∷ rest)
unfolding span
span_word [] c rest w s = simp s refl
span_word (x ∷ word) c rest w s = ground (arith, w, span_word word c rest w.1 s)

pub scan_words-Scans : Scans scan_words
unfolding scan_words
scan_words-Scans = record {
  words = λ name level rest n l.
      ap scan_words (
        append_assoc name (32 ∷ (level ++ (10 ∷ []))) rest
        ∙ ap (λ t. name ++ (32 ∷ t)) (append_assoc level (10 ∷ []) rest))
      ∙ rw (span_word name 32 (level ++ (10 ∷ rest)) n.2 refl)
          (rw (span_word level 10 rest l.2 refl) (ground arith));
  end_of_file = refl;
}

span-le : (file : Text) → length (span file).1 ≤ length file
unfolding span
span-le [] = omega arith
span-le (c ∷ file) = ground (arith, span-le file)

second_word-le :
    (n file : Text) {name level rest : Text}
    → second_word n file ≡ some (name, level, rest)
    → length rest ≤ length file
second_word-le n [] e = absurd (ground arith)
second_word-le n (c ∷ file) e = ground (arith, span-le file)

pub scan_words-Reads : Reads scan_words
unfolding scan_words
scan_words-Reads file name level rest e =
    omega (arith, span-le file, second_word-le (span file).0 (span file).1 e)
