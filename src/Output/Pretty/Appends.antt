-- ===== src/Output/Pretty/Appends.antt =====
-- Writes to a buffer that append text without a newline.
use loi.Prelude.{ℕ, ◌≡◌, refl, [], ◌∷◌, ◌++◌, append_assoc}
use loi.Prelude.Result.{ok}
use loi.Prelude.Text.{Text}
use loi.Output.Clean.{IsClean, append-IsClean}
use loi.Output.Stream.{Writing, buffer, ◌>>◌, put}
use loi.Output.Pretty.Refine.{write_spaces_lem}
use loi.Output.Pretty.{spaces, write_spaces}
use loi.Output.Pretty.Texts.{spaces-IsClean}

module _ (E : Type 0) where
  -- It ends well and appends a text without a newline.
  abbrev pub Appends : Writing E Text → Type 0
  Appends w = (o : Text) → (line : Text) × (w o ≡ (ok tt, o ++ line)) × IsClean line

  pub put-Appends : (s : Text) → IsClean s → Appends (put (buffer E) s)
  put-Appends s h o = (s, refl, h)

  pub then-Appends : (w v : Writing E Text) → Appends w → Appends v → Appends (w >> v)
  then-Appends w v first second o =
      let (a, wrote, clean_a) = first o in
      let (b, wrote_b, clean_b) = second (o ++ a) in
      (a ++ b, rw wrote (rw (wrote_b, append_assoc o) refl), append-IsClean a b clean_a clean_b)

  -- It ends well and appends a text without a newline, and one newline.
  abbrev pub Ends : Writing E Text → Type 0
  Ends w = (o : Text) → (line : Text) × (w o ≡ (ok tt, o ++ (line ++ (10 ∷ [])))) × IsClean line

  pub then-Ends : (w v : Writing E Text) → Appends w → Ends v → Ends (w >> v)
  then-Ends w v first second o =
      let (a, wrote, clean_a) = first o in
      let (b, wrote_b, clean_b) = second (o ++ a) in
      (
        a ++ b,
        rw wrote (rw (wrote_b, append_assoc o, append_assoc a) refl),
        append-IsClean a b clean_a clean_b,
      )

  pub write_spaces-Appends : (n : ℕ) → Appends (write_spaces (buffer E) n)
  write_spaces-Appends n o = (spaces n, write_spaces_lem E n o, spaces-IsClean n)
