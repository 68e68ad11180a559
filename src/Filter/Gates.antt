-- ===== src/Filter/Gates.antt =====
-- When an event passes the filter that the flags of the command line give.
use loi.Prelude.{
  ◌≡◌, refl, ◌∙◌, sym, ◌&&◌, ◌||◌, not, any, is_empty, Option, none, some, List, [], ◌∷◌, ◌++◌,
  append_assoc, append-nil, Bool, true, false, if◌then◌else◌, arith, inl, inr,
}
use loi.Prelude.Tests.{Bool-cases}
use loi.Prelude.Int.{is_neg}
use loi.Prelude.Result.{Result, ok, err, panic, >>=-eq-ok, ok_injective}
use loi.Prelude.Text.{Text}
use loi.Core.Event.{SyscallEvent}
use loi.Syscalls.Decoder.{DecodedCall}
use loi.Filter.{
  Globset, FilterError, invalid_glob, Filter, split, trim, add_globs, compile_globs, parse,
  matches_event, path_args, matches_decoded, needs_decode,
}
use loi.Filter.Patterns.{patterns, flag_patterns}

module _ (g : Globset) where
  -- One pattern matches: it is a glob, and the text is one of those the glob stands for.
  abbrev pub glob_matches : (g.Glob → Text → Bool) → Text → Text → Bool
  glob_matches one t pattern = elim (g.glob_new pattern) [
    | ok glob ↦ one glob t
    | err e ↦ false
    | panic ↦ false
  ]

  -- What `globset` promises: a set matches when one of its globs does.
  pub record IsGlobset : Type 0 where
    pub one : g.Glob → Text → Bool
    pub any_of :
        (gs : List g.Glob) (set : g.GlobSet)
        → g.build gs ≡ ok set
        → (t : Text) → g.is_match set t ≡ any (λ glob. one glob t) gs

  -- The globs stand for these patterns, one each.
  abbrev Stand : (g.Glob → Text → Bool) → Text → List Text → List g.Glob → Type 0
  Stand one t ps xs =
      (is_empty xs ≡ is_empty ps) × (any (λ glob. one glob t) xs ≡ any (glob_matches one t) ps)

  -- A segment that is a pattern parses, if all of them do.
  add_globs_pattern :
      (seg : Text) (segs : List Text) (builder gs : List g.Glob)
      → is_empty (trim seg) ≡ false
      → add_globs g (seg ∷ segs) builder ≡ ok gs
      → (glob : g.Glob) × (g.glob_new (trim seg) ≡ ok glob)
        × (add_globs g segs (builder ++ glob ∷ []) ≡ ok gs)
  unfolding add_globs
  add_globs_pattern seg segs builder gs full eq = by_glob (g.glob_new (trim seg)) refl
    where
      by_glob :
          (r : Result g.Error g.Glob)
          → g.glob_new (trim seg) ≡ r
          → (glob : g.Glob) × (g.glob_new (trim seg) ≡ ok glob)
            × (add_globs g segs (builder ++ glob ∷ []) ≡ ok gs)
      by_glob (ok glob) h = (glob, h, ground arith)
      by_glob (err e) h = absurd (ground arith)
      by_glob panic h = absurd (ground arith)

  -- The builder gains the globs of the patterns.
  add_globs_lem :
      (one : g.Glob → Text → Bool) (t : Text) (segs : List Text) (builder gs : List g.Glob)
      → add_globs g segs builder ≡ ok gs
      → (xs : List g.Glob) × (gs ≡ builder ++ xs) × Stand one t (patterns segs) xs
  unfolding add_globs
  add_globs_lem one t [] builder gs eq =
      ([], sym (ok_injective eq) ∙ sym (append-nil builder), (refl, refl))
  add_globs_lem one t (seg ∷ segs) builder gs eq = elim (Bool-cases (is_empty (trim seg))) [
    | inl blank ↦
        let rest : add_globs g segs builder ≡ ok gs = ground arith in
        let (xs, same, (empty, matched)) = add_globs_lem one t segs builder gs rest in
        (xs, same, (ground arith, ground arith))
    | inr full ↦
        let (glob, h, rest) = add_globs_pattern seg segs builder gs full eq in
        let (xs, same, (empty, matched)) =
          add_globs_lem one t segs (builder ++ glob ∷ []) gs rest in
        (glob ∷ xs, same ∙ append_assoc builder (glob ∷ []) xs, (ground arith, ground arith))
  ]

  -- The set of a flag: there is none without patterns, and it matches what one of them matches.
  abbrev Compiled : (g.Glob → Text → Bool) → List Text → Option g.GlobSet → Type 0
  Compiled one ps none = is_empty ps ≡ true
  Compiled one ps (some set) =
      (is_empty ps ≡ false) × ((t : Text) → g.is_match set t ≡ any (glob_matches one t) ps)

  module _ (promise : IsGlobset) where
    -- What is built of these globs is the set of the patterns that they stand for.
    built :
        (raw : Text) (ps : List Text) (gs : List g.Glob) (o : Option g.GlobSet)
        (r : Result g.Error g.GlobSet)
        → ((t : Text) → Stand promise.one t ps gs)
        → g.build gs ≡ r
        → if◌then◌else◌ {A = Result (FilterError g) (Option g.GlobSet)}
            (is_empty gs)
            (ok none)
            (elim r [
              | ok set ↦ ok (some set)
              | err source ↦
                  err (invalid_glob (elim (g.error_glob source) [ some p ↦ p | none ↦ raw ]) source)
              | panic ↦ panic
            ])
          ≡ ok o
        → Compiled promise.one ps o
    built raw ps gs none (ok set) stand h eq = let s = stand [] in grind arith
    built raw ps gs (some set') (ok set) stand h eq =
        let s = stand [] in
        (grind arith, λ t. let st = stand t in let m = promise.any_of gs set h t in grind arith)
    built raw ps gs none (err e) stand h eq = let s = stand [] in grind arith
    built raw ps gs (some set') (err e) stand h eq = absurd (grind arith)
    built raw ps gs none panic stand h eq = let s = stand [] in grind arith
    built raw ps gs (some set') panic stand h eq = absurd (grind arith)

    compile_globs-Compiled :
        (raw : Option Text) (o : Option g.GlobSet)
        → compile_globs g raw ≡ ok o
        → Compiled promise.one (flag_patterns raw) o
    unfolding compile_globs
    compile_globs-Compiled none none eq = refl
    compile_globs-Compiled none (some set) eq = absurd (ground arith)
    compile_globs-Compiled (some raw) o eq =
        let (gs, added, rest) = >>=-eq-ok (add_globs g (split 44 raw) []) _ eq in
        built raw (patterns (split 44 raw)) gs o (g.build gs) (stand gs added) refl rest
      where
        stand :
            (gs : List g.Glob)
            → add_globs g (split 44 raw) [] ≡ ok gs
            → (t : Text) → Stand promise.one t (patterns (split 44 raw)) gs
        stand gs added t =
            let (xs, same, (empty, matched)) =
              add_globs_lem promise.one t (split 44 raw) [] gs added in
            (rw same empty, rw same matched)

    -- The filter that the flags give lets an event pass before decoding exactly when it did not
    -- succeed, where only failures are asked for, and its name matches a pattern, where there is one.
    pub matches_event-parse :
        (names : Option Text) (fail : Bool) (paths : Option Text) (f : Filter g) (ev : SyscallEvent)
        → parse g names fail paths ≡ ok f
        → matches_event g f ev ≡ (
            not (fail && not (is_neg ev.ret))
            && (is_empty (flag_patterns names)
                || any (glob_matches promise.one ev.syscall_name) (flag_patterns names)))
    unfolding parse matches_event
    matches_event-parse names fail paths f ev eq =
        let (name_set, h, rest) = >>=-eq-ok (compile_globs g names) _ eq in
        let (path_set, h', rest') = >>=-eq-ok (compile_globs g paths) _ rest in
        by_set name_set path_set (compile_globs-Compiled names name_set h) (ok_injective rest')
      where
        by_set :
            (name_set path_set : Option g.GlobSet)
            → Compiled promise.one (flag_patterns names) name_set
            → record { syscalls = name_set; only_fail = fail; paths = path_set } ≡ f
            → matches_event g f ev ≡ (
                not (fail && not (is_neg ev.ret))
                && (is_empty (flag_patterns names)
                    || any (glob_matches promise.one ev.syscall_name) (flag_patterns names)))
        by_set none path_set empty same = rw (sym same) (grind arith)
        by_set (some set) path_set (full, matched) same =
            let m = matched ev.syscall_name in rw (sym same) (grind arith)

    any_ext :
        {A : Type 0} (p q : A → Bool) (xs : List A) → ((x : A) → p x ≡ q x) → any p xs ≡ any q xs
    any_ext p q [] same = refl
    any_ext p q (x ∷ xs) same = ground (arith, same x, any_ext p q xs same)

    -- The filter that the flags give lets a decoded call pass exactly when one of its path arguments
    -- matches a pattern for paths, where there is one, and asks for decoding exactly then.
    pub matches_decoded-parse :
        (names : Option Text) (fail : Bool) (paths : Option Text) (f : Filter g) (d : DecodedCall)
        → parse g names fail paths ≡ ok f
        → (needs_decode g f ≡ not (is_empty (flag_patterns paths)))
          × (matches_decoded g f d ≡ (
              is_empty (flag_patterns paths)
              || any
                  (λ p. any (glob_matches promise.one p) (flag_patterns paths))
                  (path_args g d.args)))
    unfolding parse matches_decoded needs_decode
    matches_decoded-parse names fail paths f d eq =
        let (name_set, h, rest) = >>=-eq-ok (compile_globs g names) _ eq in
        let (path_set, h', rest') = >>=-eq-ok (compile_globs g paths) _ rest in
        by_set name_set path_set (compile_globs-Compiled paths path_set h') (ok_injective rest')
      where
        by_set :
            (name_set path_set : Option g.GlobSet)
            → Compiled promise.one (flag_patterns paths) path_set
            → record { syscalls = name_set; only_fail = fail; paths = path_set } ≡ f
            → (needs_decode g f ≡ not (is_empty (flag_patterns paths)))
              × (matches_decoded g f d ≡ (
                  is_empty (flag_patterns paths)
                  || any
                      (λ p. any (glob_matches promise.one p) (flag_patterns paths))
                      (path_args g d.args)))
        by_set name_set none empty same = rw (sym same) (grind arith, grind arith)
        by_set name_set (some set) (full, matched) same =
            let m = any_ext (g.is_match set) _ (path_args g d.args) matched in
            rw (sym same) (grind arith, grind arith)
