-- ===== src/Syscalls/Decoders/Signatures/Clean.antt =====
-- A call that fits a signature brings no newline into its line: the names of flags are those listed.
use loi.Prelude.{◌≡◌, ◌==◌, not, Bool, true, List, [], ◌∷◌, all, All, arith}
use loi.Prelude.Text.{Text}
use loi.Syscalls.Decoder.{DecodedArg, path, fd, flags, mode, int, uint, bytes, hex, ptr, argv}
use loi.Syscalls.Decoders.Signatures.{
  Kind, names_of, a_path, a_fd, a_mode, an_int, a_number, a_buffer, an_address, a_pointer, a_vector,
  status_word, Signature, Fits, FitAll,
}
use loi.Syscalls.Decoders.Signatures.Chosen.{All-Picks}
use loi.Output.Clean.{IsClean, HasCleanNames}

-- The names that a kind lists hold no newline, as a test.
abbrev pub clean_text : Text → Bool
clean_text = all (λ b. not (b == 10))

abbrev pub clean_kind : Kind → Bool
clean_kind (names_of listed) = all clean_text listed
clean_kind _ = true

abbrev pub clean_signature : Signature → Bool
clean_signature = all (λ row. clean_kind row.1)

clean_text-IsClean : (s : Text) → clean_text s ≡ true → IsClean s
clean_text-IsClean [] h = tt
clean_text-IsClean (b ∷ s) h = (ground arith, clean_text-IsClean s (ground arith))

all-clean_text-IsClean : (ss : List Text) → all clean_text ss ≡ true → All IsClean ss
all-clean_text-IsClean [] h = tt
all-clean_text-IsClean (s ∷ ss) h =
    (clean_text-IsClean s (ground arith), all-clean_text-IsClean ss (ground arith))

Fits-HasCleanNames :
    (arg : DecodedArg) (kind : Kind) → clean_kind kind ≡ true → Fits arg kind → HasCleanNames arg
Fits-HasCleanNames (flags names) (names_of listed) h fits =
    All-Picks IsClean fits (all-clean_text-IsClean listed h)
Fits-HasCleanNames (flags names) a_path h fits = absurd fits
Fits-HasCleanNames (flags names) a_fd h fits = absurd fits
Fits-HasCleanNames (flags names) a_mode h fits = absurd fits
Fits-HasCleanNames (flags names) an_int h fits = absurd fits
Fits-HasCleanNames (flags names) a_number h fits = absurd fits
Fits-HasCleanNames (flags names) a_buffer h fits = absurd fits
Fits-HasCleanNames (flags names) an_address h fits = absurd fits
Fits-HasCleanNames (flags names) a_pointer h fits = absurd fits
Fits-HasCleanNames (flags names) a_vector h fits = absurd fits
Fits-HasCleanNames (flags names) status_word h fits = absurd fits
Fits-HasCleanNames (path s) kind h fits = tt
Fits-HasCleanNames (fd r) kind h fits = tt
Fits-HasCleanNames (mode m) kind h fits = tt
Fits-HasCleanNames (int i) kind h fits = tt
Fits-HasCleanNames (uint u) kind h fits = tt
Fits-HasCleanNames (bytes i n) kind h fits = tt
Fits-HasCleanNames (hex n) kind h fits = tt
Fits-HasCleanNames (ptr n) kind h fits = tt
Fits-HasCleanNames (argv es) kind h fits = tt

pub FitAll-HasCleanNames :
    (args : List (Text × DecodedArg)) (sig : Signature)
    → clean_signature sig ≡ true
    → FitAll args sig
    → All (λ a. HasCleanNames a.1) args
FitAll-HasCleanNames [] [] h fits = tt
FitAll-HasCleanNames [] (row ∷ sig) h fits = absurd fits
FitAll-HasCleanNames (a ∷ args) [] h fits = absurd fits
FitAll-HasCleanNames ((name, arg) ∷ args) ((label, kind) ∷ sig) h (same, fits, rest) = (
  Fits-HasCleanNames arg kind (ground arith) fits,
  FitAll-HasCleanNames args sig (ground arith) rest,
)
