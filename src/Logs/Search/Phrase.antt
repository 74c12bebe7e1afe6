-- ===== src/Logs/Search/Phrase.antt =====
-- logs/store.go: what an operator types becomes one phrase of FTS5, whatever it is.
use hostd.Base.{
  ◌≡◌, refl, inl, inr, ◌∙◌, Bool, true, false, Option, none, some, [], ◌∷◌, ◌++◌, Text, ◌==◌,
  ==_iff, if◌then◌else◌, Bool-cases, ap, append-nil, append_assoc, codes,
}
use hostd.Logs.Search.{double_quotes, fts_query}

-- A string of FTS5's query language behind its opening quote: two quotes are one, and one alone is
-- the end. The flag: the last byte was a quote that may be the first of two. The string, and what
-- follows it.
unfoldable pub read_string : Text → Bool → Text → Option (Text × Text)
read_string said false [] = none
read_string said true [] = some (said, [])
read_string said false (c ∷ rest) =
    let at_quote = read_string said true rest in
    let other = read_string (said ++ c ∷ []) false rest in if c == 34 then at_quote else other
read_string said true (c ∷ rest) =
    let doubled = read_string (said ++ 34 ∷ []) false rest in
    if c == 34 then doubled else some (said, c ∷ rest)

-- A quoted string at the start of an expression.
unfoldable pub read_phrase : Text → Option (Text × Text)
unfolding read_string
read_phrase [] = none
read_phrase (c ∷ rest) = if c == 34 then read_string [] false rest else none

read_string-double_quotes :
    (said match : Text)
    → read_string said false (double_quotes match ++ 34 ∷ 42 ∷ []) ≡ some (said ++ match, 42 ∷ [])
unfolding read_string double_quotes
read_string-double_quotes said [] = rw (append-nil said) refl
read_string-double_quotes said (c ∷ cs) = elim (Bool-cases (c == 34)) [
  | inl e ↦
      let q : c ≡ 34 = (==_iff c 34).0 e in
      rw q (
        read_string-double_quotes (said ++ 34 ∷ []) cs
        ∙ ap (λ t. some (t, 42 ∷ [])) (append_assoc said (34 ∷ []) cs))
  | inr e ↦
      rw (e, e)
        (read_string-double_quotes (said ++ c ∷ []) cs
          ∙ ap (λ t. some (t, 42 ∷ [])) (append_assoc said (c ∷ []) cs))
]

-- Whatever is searched for, quotes and operators in it included, FTS5 reads the expression as one
-- string, which is what was searched for, and the star of a prefix behind it.
pub read_phrase-fts_query : (match : Text) → read_phrase (fts_query match) ≡ some (match, codes "*")
unfolding read_phrase fts_query
read_phrase-fts_query match = read_string-double_quotes [] match
