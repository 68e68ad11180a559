-- ===== src/Cli/Typed.antt =====
-- What the sink is given to show of a call, with the default decoders.
use loi.Prelude.{◌≡◌, refl, ◌⊎◌, inl, inr, ℕ, true, Option, none, some, [], ◌∷◌, all, All}
use mathlib.Core.Path.{subst}
use loi.Prelude.Tests.{Eq, Option-cases}
use loi.Prelude.Result.{ok, err, ok_injective, Result-cases}
use loi.Prelude.Text.{text}
use loi.Prelude.Word.{Profile}
use loi.Core.Event.{SyscallEvent}
use loi.Syscalls.Decoder.{Host, DecodeCtx, DecodeError, uint, DecodedCall, Category, Decoder}
use loi.Syscalls.Decoders.Processes.{Arch, x86_64, aarch64}
use loi.Syscalls.Decoders.Signatures.{Signature, FitAll, of_registers}
use loi.Syscalls.Decoders.Signatures.Clean.{clean_signature, FitAll-HasCleanNames}
use loi.Syscalls.Registry.{Table, Registry, sysno_from_nr, decoder, with_default_decoders}
use loi.Syscalls.Registry.Lookup.{IsTable}
use loi.Syscalls.Registry.Documented.{
  manual, signature_of-passes, documented, decoder-Conforms, undecoded-documented,
}
use loi.Filter.{Globset}
use loi.Output.Clean.{HasCleanNames}
use loi.Cli.{Writer, fallback_decoded, decode}

-- The registers of an event by their numbers, and its result.
abbrev pub of_event : SyscallEvent → DecodedCall
of_event ev = record {
  args =
      (text "arg0", uint ev.args.arg0)
      ∷ (text "arg1", uint ev.args.arg1)
      ∷ (text "arg2", uint ev.args.arg2)
      ∷ (text "arg3", uint ev.args.arg3)
      ∷ (text "arg4", uint ev.args.arg4)
      ∷ (text "arg5", uint ev.args.arg5)
      ∷ [];
  ret = ev.ret;
}

-- What a decoder is given of an event.
abbrev pub ctx_of : SyscallEvent → DecodeCtx
ctx_of ev = record { pid = ev.pid; args = ev.args; ret = ev.ret }

module _ {Sysno : Type 0} ⦃e : Eq Sysno⦄ (t : Table Sysno) (arch : Arch) (r : Registry t)
    (h : Host) where
  -- There is no signature for the number, or its decoder fails.
  abbrev pub IsUndecodable : SyscallEvent → Type 0
  IsUndecodable ev =
      (documented t arch ev.syscall_nr ≡ none)
      ⊎ ((d : Decoder) × (failed : DecodeError) × (decoder t ev.syscall_nr r ≡ some d)
          × (d.decode h (ctx_of ev) ≡ err failed))

  -- The call is what the decoder of its number gives, with the arguments of the signature.
  abbrev pub IsDecoded : SyscallEvent → DecodedCall → Option Category → Type 0
  IsDecoded ev call category =
      (d : Decoder) × (sig : Signature) × (decoder t ev.syscall_nr r ≡ some d)
      × (d.decode h (ctx_of ev) ≡ ok call)
      × (category ≡ some d.category)
      × (documented t arch ev.syscall_nr ≡ some sig)
      × FitAll call.args sig
      × (call.ret ≡ ev.ret)

  abbrev pub IsDocumented : SyscallEvent → DecodedCall → Option Category → Type 0
  IsDocumented ev call category =
      ((category ≡ none) × (call ≡ of_event ev) × IsUndecodable ev) ⊎ IsDecoded ev call category

module _ {Sysno : Type 0} ⦃e : Eq Sysno⦄ (t : Table Sysno) (g : Globset) (w : Writer)
    (table : IsTable t) (profile : Profile) (arch : Arch) (r : Registry t)
    (wired : with_default_decoders t profile arch ≡ ok r) where
  -- With the default decoders, and a table that keeps the promises of its crate, a call is shown as its
  -- decoder gives it: with its result, the decoder's category and the arguments that the manual gives
  -- the call of its number, in names, order and kinds. Only where the manual lists no call for the
  -- number, or the decoder fails, it is shown without a category and with its six registers, as numbers
  -- under the names arg0 to arg5, and its result.
  pub decode-IsDocumented :
      (h : Host) (ev : SyscallEvent) (call : DecodedCall) (category : Option Category)
      → decode t g w h ev r ≡ ok (call, category)
      → IsDocumented t arch r h ev call category
  unfolding decode fallback_decoded
  decode-IsDocumented h ev call category done =
      let Shown = λ (p : DecodedCall × Option Category). IsDocumented t arch r h ev p.0 p.1 in
      elim (Option-cases (decoder t ev.syscall_nr r)) [
        | inl undecoded ↦
            let same = ok_injective (rw (undecoded, decode) at done) in
            let unlisted =
              undecoded-documented t table profile arch r wired ev.syscall_nr undecoded in
            subst Shown same (inl (refl, refl, inl unlisted))
        | inr (d, found) ↦
            let tried = rw (found, decode) at done in
            elim (Result-cases (d.decode h (ctx_of ev))) [
              | inl (c, decoded) ↦
                  let same = ok_injective (rw decoded at tried) in
                  let (sig, listed, conforms) =
                    decoder-Conforms t table profile arch r wired ev.syscall_nr d found in
                  let (fits, ret) = conforms h (ctx_of ev) c decoded in
                  subst Shown same (inr (d, sig, found, decoded, refl, listed, fits, ret))
              | inr (inl (failed, failing)) ↦
                  let same = ok_injective (rw failing at tried) in
                  subst Shown same (inl (refl, refl, inr (d, failed, found, failing)))
              | inr (inr panics) ↦ (let never = rw panics at tried in cc)
            ]
      ]

  of_event-FitAll : (ev : SyscallEvent) → FitAll (of_event ev).args of_registers
  of_event-FitAll ev = (refl, tt, (refl, tt, (refl, tt, (refl, tt, (refl, tt, (refl, tt, tt))))))

  manual-clean : (arch : Arch) → all (λ row. clean_signature row.1) (manual t arch) ≡ true
  manual-clean x86_64 = refl
  manual-clean aarch64 = refl

  listed-clean :
      (sig : Signature) (nr : ℕ) → documented t arch nr ≡ some sig → clean_signature sig ≡ true
  listed-clean sig nr listed = elim (Option-cases (sysno_from_nr t nr)) [
    | inl unknown ↦ (let never = rw (unknown, documented) at listed in cc)
    | inr (s, known) ↦
        signature_of-passes t clean_signature s (manual t arch) sig (manual-clean arch)
          (rw (known, documented) at listed)
  ]

  -- So the names of flags hold no newline.
  pub decode-HasCleanNames :
      (h : Host) (ev : SyscallEvent) (call : DecodedCall) (category : Option Category)
      → decode t g w h ev r ≡ ok (call, category)
      → All (λ a. HasCleanNames a.1) call.args
  decode-HasCleanNames h ev call category done =
      elim (decode-IsDocumented h ev call category done) [
        | inl (uncategorized, raw, undecodable) ↦
            rw raw (FitAll-HasCleanNames (of_event ev).args of_registers refl (of_event-FitAll ev))
        | inr (d, sig, found, decoded, category_is, listed, fits, ret) ↦
            FitAll-HasCleanNames call.args sig (listed-clean sig ev.syscall_nr listed) fits
      ]
