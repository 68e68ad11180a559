-- ===== src/Filter/Patterns.antt =====
-- The patterns of a flag, and when parsing them succeeds.
use loi.Prelude.{
  ◌≡◌, refl, is_empty, Option, none, some, List, [], ◌∷◌, ◌++◌, All, Bool, if◌then◌else◌, arith,
  inl, inr,
}
use loi.Prelude.Tests.{Bool-cases}
use loi.Prelude.Result.{ok, err}
use loi.Prelude.Text.{Text}
use loi.Filter.{Globset, invalid_glob, Filter, split, trim, add_globs, compile_globs, parse}

-- The patterns of a flag: its segments between commas, trimmed, without the empty ones.
abbrev pub patterns : List Text → List Text
patterns [] = []
patterns (seg ∷ segs) = if is_empty (trim seg) then patterns segs else trim seg ∷ patterns segs

-- The patterns of a flag that may be missing.
abbrev pub flag_patterns : Option Text → List Text
flag_patterns none = []
flag_patterns (some raw) = patterns (split 44 raw)

module _ (g : Globset) where
  add_globs_invalid :
      (pattern : Text) (after : List Text) (e : g.Error)
      → g.glob_new pattern ≡ err e
      → (segs before : List Text) (builder : List g.Glob)
      → patterns segs ≡ before ++ pattern ∷ after
      → All (λ p. (glob : g.Glob) × (g.glob_new p ≡ ok glob)) before
      → add_globs g segs builder ≡ err (invalid_glob pattern e)
  unfolding add_globs
  add_globs_invalid pattern after e bad [] [] builder eq valid = absurd (ground arith)
  add_globs_invalid pattern after e bad [] (p ∷ before) builder eq valid = absurd (ground arith)
  add_globs_invalid pattern after e bad (seg ∷ segs) [] builder eq valid =
      let blank = add_globs_invalid pattern after e bad segs [] builder in
      elim (Bool-cases (is_empty (trim seg))) [
        | inl empty ↦ let rest = blank (ground arith) tt in ground arith
        | inr full ↦ ground arith
      ]
  add_globs_invalid pattern after e bad (seg ∷ segs) (p ∷ before) builder eq valid =
      let (good, valid_rest) = valid in
      let (glob, parses) = good in
      let blank = add_globs_invalid pattern after e bad segs (p ∷ before) builder in
      let next = add_globs_invalid pattern after e bad segs before (builder ++ glob ∷ []) in
      elim (Bool-cases (is_empty (trim seg))) [
        | inl empty ↦ let rest = blank (ground arith) valid in ground arith
        | inr full ↦ let rest = next (ground arith) valid_rest in ground arith
      ]

  -- The first pattern that is not a glob fails the flag, and the error names it.
  pub compile_globs_invalid :
      (raw pattern : Text) (before after : List Text) (e : g.Error)
      → flag_patterns (some raw) ≡ before ++ pattern ∷ after
      → All (λ p. (glob : g.Glob) × (g.glob_new p ≡ ok glob)) before
      → g.glob_new pattern ≡ err e
      → compile_globs g (some raw) ≡ err (invalid_glob pattern e)
  unfolding compile_globs
  compile_globs_invalid raw pattern before after e eq valid bad =
      rw (add_globs_invalid pattern after e bad (split 44 raw) before [] eq valid) refl

  -- A pattern that is a glob.
  abbrev pub IsGlob : Text → Type 0
  IsGlob p = (glob : g.Glob) × (g.glob_new p ≡ ok glob)

  add_globs_ok :
      (segs : List Text) (builder : List g.Glob)
      → All IsGlob (patterns segs)
      → (gs : List g.Glob) × (add_globs g segs builder ≡ ok gs)
  unfolding add_globs
  add_globs_ok [] builder valid = (builder, refl)
  add_globs_ok (seg ∷ segs) builder valid = elim (Bool-cases (is_empty (trim seg))) [
    | inl blank ↦
        let rest : All IsGlob (patterns segs) = rw blank at valid in
        let (gs, eq) = add_globs_ok segs builder rest in (gs, ground arith)
    | inr full ↦
        let split_valid : IsGlob (trim seg) × All IsGlob (patterns segs) = rw full at valid in
        let ((glob, parses), rest) = split_valid in
        let (gs, eq) = add_globs_ok segs (builder ++ glob ∷ []) rest in (gs, ground arith)
  ]

  compile_globs_ok :
      (raw : Option Text)
      → ((gs : List g.Glob) → (set : g.GlobSet) × (g.build gs ≡ ok set))
      → All IsGlob (flag_patterns raw)
      → (o : Option g.GlobSet) × (compile_globs g raw ≡ ok o)
  unfolding compile_globs
  compile_globs_ok none builds valid = (none, refl)
  compile_globs_ok (some raw) builds valid =
      let (gs, added) = add_globs_ok (split 44 raw) [] valid in
      let (set, built_set) = builds gs in
      elim (Bool-cases (is_empty gs)) [
        | inl nothing ↦ (none, ground arith)
        | inr patterned ↦ (some set, ground arith)
      ]

  -- Where every pattern of both flags is a glob and sets of globs can be built, parsing succeeds.
  pub parse_ok :
      (names : Option Text) (fail : Bool) (paths : Option Text)
      → ((gs : List g.Glob) → (set : g.GlobSet) × (g.build gs ≡ ok set))
      → All IsGlob (flag_patterns names)
      → All IsGlob (flag_patterns paths)
      → (f : Filter g) × (parse g names fail paths ≡ ok f)
  unfolding parse
  parse_ok names fail paths builds valid_names valid_paths =
      let (name_set, h) = compile_globs_ok names builds valid_names in
      let (path_set, h') = compile_globs_ok paths builds valid_paths in
      (record { syscalls = name_set; only_fail = fail; paths = path_set }, rw (h, h') refl)
