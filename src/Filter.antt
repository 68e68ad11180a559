-- ===== src/Filter.antt =====
-- crates/loi-filter/src/lib.rs. The crate `globset` is a parameter.
pub mod Patterns
pub mod Gates
use loi.Prelude.{
  ℕ, zero, suc, ◌≡◌, ◌&&◌, not, any, is_empty, length, map, Option, none, some, List, [], ◌∷◌, ◌++◌,
  Bool, true, false, ◌==◌, if◌then◌else◌,
}
use loi.Prelude.Int.{ℤ, is_neg}
use loi.Prelude.Result.{Result, ok, err, panic, ◌>>=◌, map_err}
use loi.Prelude.Text.{Text}
use loi.Core.Event.{SyscallEvent}
use loi.Syscalls.Decoder.{as_path, DecodedArg, DecodedCall}

-- What the source takes from `globset`.
pub record Globset : Type 1 where
  pub Glob : Type 0
  pub GlobSet : Type 0
  pub Error : Type 0
  pub glob_new : Text → Result Error Glob
  pub build : List Glob → Result Error GlobSet
  pub is_match : GlobSet → Text → Bool
  pub error_glob : Error → Option Text

-- `str::split` at a byte, with the segment read so far.
unfoldable pub split_from : ℕ → Text → Text → List Text
split_from sep seg [] = seg ∷ []
split_from sep seg (b ∷ s) =
    let same = split_from sep (seg ++ b ∷ []) s in
    let next = split_from sep [] s in if b == sep then seg ∷ next else same

abbrev pub split : ℕ → Text → List Text
split sep s = split_from sep [] s

-- The characters of Unicode's property `White_Space`, as UTF-8.
abbrev pub spaces : List Text
spaces =
    (9 ∷ [])
    ∷ (10 ∷ [])
    ∷ (11 ∷ [])
    ∷ (12 ∷ [])
    ∷ (13 ∷ [])
    ∷ (32 ∷ [])
    ∷ (194 ∷ 133 ∷ [])
    ∷ (194 ∷ 160 ∷ [])
    ∷ (225 ∷ 154 ∷ 128 ∷ [])
    ∷ (226 ∷ 128 ∷ 128 ∷ [])
    ∷ (226 ∷ 128 ∷ 129 ∷ [])
    ∷ (226 ∷ 128 ∷ 130 ∷ [])
    ∷ (226 ∷ 128 ∷ 131 ∷ [])
    ∷ (226 ∷ 128 ∷ 132 ∷ [])
    ∷ (226 ∷ 128 ∷ 133 ∷ [])
    ∷ (226 ∷ 128 ∷ 134 ∷ [])
    ∷ (226 ∷ 128 ∷ 135 ∷ [])
    ∷ (226 ∷ 128 ∷ 136 ∷ [])
    ∷ (226 ∷ 128 ∷ 137 ∷ [])
    ∷ (226 ∷ 128 ∷ 138 ∷ [])
    ∷ (226 ∷ 128 ∷ 168 ∷ [])
    ∷ (226 ∷ 128 ∷ 169 ∷ [])
    ∷ (226 ∷ 128 ∷ 175 ∷ [])
    ∷ (226 ∷ 129 ∷ 159 ∷ [])
    ∷ (227 ∷ 128 ∷ 128 ∷ [])
    ∷ []

abbrev pub strip_prefix : Text → Text → Option Text
strip_prefix [] s = some s
strip_prefix (a ∷ p) [] = none
strip_prefix (a ∷ p) (b ∷ s) = if a == b then strip_prefix p s else none

abbrev pub strip_first : List Text → Text → Option Text
strip_first [] s = none
strip_first (p ∷ ps) s = elim (strip_prefix p s) [ some rest ↦ some rest | none ↦ strip_first ps s ]

-- The prefixes that stand in the list are stripped. A round for each byte is enough.
unfoldable pub strip_all : ℕ → List Text → Text → Text
strip_all zero ps s = s
strip_all (suc fuel) ps s = elim (strip_first ps s) [
  | some rest ↦ strip_all fuel ps rest
  | none ↦ s
]

abbrev pub reverse : Text → Text
reverse [] = []
reverse (b ∷ s) = reverse s ++ b ∷ []

unfoldable pub trim : Text → Text
trim s =
    let front = strip_all (length s) spaces s in
    reverse (strip_all (length front) (map reverse spaces) (reverse front))

module _ (g : Globset) where
  pub data FilterError : Type 0 where
    invalid_glob : Text → g.Error → FilterError

  pub record Filter : Type 0 where
    pub syscalls : Option g.GlobSet
    pub only_fail : Bool
    pub paths : Option g.GlobSet

  -- The globs of the segments that are left, added to those of the builder.
  unfoldable pub add_globs : List Text → List g.Glob → Result FilterError (List g.Glob)
  add_globs [] builder = ok builder
  add_globs (seg ∷ segs) builder = elim (is_empty (trim seg)) [
    | true ↦ add_globs segs builder
    | false ↦ do
      glob ← map_err (invalid_glob (trim seg)) (g.glob_new (trim seg))
      add_globs segs (builder ++ glob ∷ [])
  ]

  -- `any` is set with each glob added.
  unfoldable pub compile_globs : Option Text → Result FilterError (Option g.GlobSet)
  compile_globs none = ok none
  compile_globs (some raw) = do
    builder ← add_globs (split 44 raw) []
    if is_empty builder then ok none else elim (g.build builder) [
      | ok set ↦ ok (some set)
      | err source ↦
          err (invalid_glob (elim (g.error_glob source) [ some p ↦ p | none ↦ raw ]) source)
      | panic ↦ panic
    ]

  unfoldable pub parse : Option Text → Bool → Option Text → Result FilterError Filter
  parse syscall_globs fail path_globs = do
    syscall_set ← compile_globs syscall_globs
    path_set ← compile_globs path_globs
    ok (record { syscalls = syscall_set; only_fail = fail; paths = path_set })

  unfoldable pub matches_event : Filter → SyscallEvent → Bool
  matches_event f ev =
      if f.only_fail && not (is_neg ev.ret)
      then false
      else elim f.syscalls [ some set ↦ g.is_match set ev.syscall_name | none ↦ true ]

  -- `filter_map` of `as_path`
  unfoldable pub path_args : List (Text × DecodedArg) → List Text
  path_args [] = []
  path_args ((label, a) ∷ rest) =
      let more = path_args rest in elim (as_path a) [ some p ↦ p ∷ more | none ↦ more ]

  unfoldable pub matches_decoded : Filter → DecodedCall → Bool
  matches_decoded f decoded = elim f.paths [
    | some set ↦ any (g.is_match set) (path_args decoded.args)
    | none ↦ true
  ]

  unfoldable pub needs_decode : Filter → Bool
  needs_decode f = elim f.paths [ some set ↦ true | none ↦ false ]
