-- ===== src/Output/Stream.antt =====
-- `std::io::Write` as the formatters of crates/loi-output use it, with the operator `?`.
use loi.Prelude.{◌++◌, Option, none, some}
use loi.Prelude.Result.{Result, ok, err, panic}
use loi.Prelude.Text.{Text}

-- A writer: what one `write!` or `write_all` of a text does to it, and the error, if it fails.
pub record Stream : Type 1 where
  pub Out : Type 0
  pub Error : Type 0
  pub put : Text → Out → Option Error × Out

-- `Vec<u8>`, whose writes do not fail, with the type of errors that they would have.
abbrev pub buffer : Type 0 → Stream
buffer E = record { Out = Text; Error = E; put = λ s o. (none, o ++ s) }

-- What a call that writes returns, and what is written then.
abbrev pub Writing : Type 0 → Type 0 → Type 0
Writing E Out = Out → Result E (Unit {0}) × Out

abbrev pub continue :
    {E Out : Type 0} → Result E (Unit {0}) × Out → Writing E Out → Result E (Unit {0}) × Out
continue (ok u, o) next = next o
continue (err e, o) next = (err e, o)
continue (panic, o) next = (panic, o)

infixl 5 ◌>>◌
abbrev pub ◌>>◌ : {E Out : Type 0} → Writing E Out → Writing E Out → Writing E Out
◌>>◌ first next o = continue (first o) next

abbrev pub nothing : {E Out : Type 0} → Writing E Out
nothing o = (ok tt, o)

abbrev pub panics : {E Out : Type 0} → Writing E Out
panics o = (panic, o)

abbrev pub returned : {E : Type 0} → Option E → Result E (Unit {0})
returned none = ok tt
returned (some e) = err e

-- `write!(w, …)?`
abbrev pub put : (io : Stream) → Text → Writing io.Error io.Out
put io s o = (returned (io.put s o).0, (io.put s o).1)
