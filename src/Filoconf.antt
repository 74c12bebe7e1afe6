-- ===== src/Filoconf.antt =====
-- filoconf/filoconf.go: what hostd adds around the Filo engine. The engine itself is a library
-- that the repository only calls: its `RunScript` with `UnmarshalFromValue`, and its `Marshal`,
-- are the fields of `Codec`.
use hostd.Base.{ℕ, ◌^◌, ◌++◌, ◌==◌, ◌∷◌, [], Option, none, some, Text, ltb, length, if◌then◌else◌}
use hostd.Strings.{trim_right_of}

-- One target type of the engine. `unmarshal current src` evaluates and decodes into `current`.
pub record Codec (A : Type 0) : Type 0 where
  pub marshal : A → Option Text
  pub unmarshal : A → Text → Option A

abbrev pub max_source_size : ℕ
max_source_size = 2 ^ 20

module _ {A : Type 0} (codec : Codec A) where
  -- The size is tested before the text is parsed.
  unfoldable pub decode : A → Text → Option A
  decode current src =
      if ltb max_source_size (length src) then none else codec.unmarshal current src

  unfoldable pub marshal : A → Option Text
  marshal a = elim (codec.marshal a) [
    | none ↦ none
    | some out ↦ some (trim_right_of (λ c. c == 10) out ++ 10 ∷ [])
  ]
