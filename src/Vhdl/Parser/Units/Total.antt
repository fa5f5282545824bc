-- ===== src/Vhdl/Parser/Units/Total.antt =====
-- tools/socgen/vhdl/parser.go: `parseFile` on the tokens of a source, which is `ParseFile` without the
-- C preprocessor.
use jcore_soc.Base.{
  ℕ, zero, suc, ◌<◌, ◌≡◌, refl, ap, ◌∙◌, ◌⊎◌, inl, inr, Bool, true, false, Option, none, List, [],
  ◌∷◌, ◌++◌, arith, Bool-cases, Option-cases, all, Bytes, codes,
}
use jcore_soc.Vhdl.Kind.{Kind, is_eof}
use jcore_soc.Vhdl.Source.{File}
use jcore_soc.Vhdl.TokenStream.{new_parser}
use jcore_soc.Vhdl.Nodes.{DesignFile}
use jcore_soc.Vhdl.Parser.{State, ParseError, at, advance, errorf, left, start, ensure_progress}
use jcore_soc.Vhdl.Parser.Steps.{
  Steps, here, is_message, Steps-trans, IsEnded, Steps-IsEnded, Steps-errs, left-advance_lt,
  ensure_progress-left,
}
use jcore_soc.Vhdl.Parser.Text.{start-IsEnded, errs-start}
use jcore_soc.Vhdl.Parser.Monad.{◌>>=◌, value, reporting}
use jcore_soc.Vhdl.Parser.Monad.Moves.{ensure_progress-Steps, eof_at}
use jcore_soc.Vhdl.Parser.Units.{
  FilePart, UnitClass, library_part, use_part, package_part, entity_part, architecture_part,
  configuration_part, no_part, unit_class, parse_part, parts_behind, parts_from, parse_file,
}
use jcore_soc.Vhdl.Parser.Units.Moves.{parse_part-Moves}

-- `ParseFile` of a text, without a preprocessor: the file and the parser's errors.
abbrev pub parse_source : Bytes → File → DesignFile × State
parse_source src f = parse_file (start (new_parser src f).toks)

is_nonempty : List ParseError → Bool
is_nonempty [] = false
is_nonempty (e ∷ es) = true

nonempty_behind : (es : List ParseError) (e : ParseError) → is_nonempty (es ++ e ∷ []) ≡ true
unfolding is_nonempty
nonempty_behind [] e = refl
nonempty_behind (x ∷ xs) e = refl

nonempty_none : {es : List ParseError} → es ≡ [] → is_nonempty es ≡ false
unfolding is_nonempty
nonempty_none e = rw e refl

abbrev has_error : State → Bool
has_error s = is_nonempty s.errs

-- The rounds are enough where fewer tokens are left, or EOF is current and a round is.
IsEnough : ℕ → State → Type 0
IsEnough fuel s = (left s < fuel) ⊎ ((is_eof s.cur.kind ≡ true) × (0 < fuel))

IsEnough-left :
    (fuel : ℕ) (s t : State)
    → IsEnough (suc fuel) s
    → is_eof s.cur.kind ≡ false
    → 0 < left s
    → ((left t < left s) ⊎ (is_eof t.cur.kind ≡ true))
    → IsEnough fuel t
unfolding IsEnough
IsEnough-left fuel s t (inr l) n p c = (let e : is_eof s.cur.kind ≡ true = l.0 in cc)
IsEnough-left fuel s t (inl l) n p (inl c) = inl (omega arith)
IsEnough-left fuel s t (inl l) n p (inr c) = inr (c, omega arith)

-- The loop only advances and reports.
parts_from-Steps :
    (fuel : ℕ) (s : State) → IsEnded s → IsEnough fuel s → Steps s (parts_from fuel s).1
unfolding parts_from parts_behind IsEnough
parts_from-Steps zero s h (inl l) = elim l [ ]
parts_from-Steps zero s h (inr l) = absurd (omega arith)
parts_from-Steps (suc fuel) s h enough = elim (Bool-cases (at Kind.eof s)) [
  | inl y ↦ rw y here
  | inr y ↦
      let part : Option FilePart × State = parse_part (unit_class s.cur.kind) s in
      let t : State = ensure_progress (left s) (codes "design unit") part.1 in
      let q : Steps s part.1 =
        parse_part-Moves {n = suc (left s)} (unit_class s.cur.kind) s h (omega arith) in
      let q' : Steps s t = Steps-trans q (ensure_progress-Steps (left s) _ part.1) in
      let no_eof : is_eof s.cur.kind ≡ false = eof_at s ∙ y in
      let some_left : left (advance s) < left s = left-advance_lt s h no_eof in
      let on : Steps t (parts_from fuel t).1 = parts_from-Steps fuel t (Steps-IsEnded h q') (
        IsEnough-left fuel s t enough no_eof (omega arith)
          (ensure_progress-left s part.1 (codes "design unit") h q)) in
      elim (Option-cases part.0) [
        | inl none_read ↦ rw (y, none_read) q
        | inr some_read ↦ rw (y, some_read.1) (Steps-trans q' on)
      ]
]

-- A part that is nothing has been reported.
parse_part-none :
    (c : UnitClass) (s : State) → (parse_part c s).0 ≡ none → has_error (parse_part c s).1 ≡ true
unfolding parse_part ◌>>=◌ value reporting errorf
parse_part-none library_part s e = cc
parse_part-none use_part s e = cc
parse_part-none package_part s e = cc
parse_part-none entity_part s e = cc
parse_part-none architecture_part s e = cc
parse_part-none configuration_part s e = cc
parse_part-none no_part s e = nonempty_behind s.errs _

-- The loop ends at EOF, or with an error.
parts_from_ends :
    (fuel : ℕ) (s : State)
    → IsEnded s
    → IsEnough fuel s
    → (is_eof (parts_from fuel s).1.cur.kind ≡ true) ⊎ (has_error (parts_from fuel s).1 ≡ true)
unfolding parts_from parts_behind IsEnough
parts_from_ends zero s h (inl l) = elim l [ ]
parts_from_ends zero s h (inr l) = absurd (omega arith)
parts_from_ends (suc fuel) s h enough = elim (Bool-cases (at Kind.eof s)) [
  | inl y ↦ rw y (inl (eof_at s ∙ y))
  | inr y ↦
      let part : Option FilePart × State = parse_part (unit_class s.cur.kind) s in
      let t : State = ensure_progress (left s) (codes "design unit") part.1 in
      let q : Steps s part.1 =
        parse_part-Moves {n = suc (left s)} (unit_class s.cur.kind) s h (omega arith) in
      let q' : Steps s t = Steps-trans q (ensure_progress-Steps (left s) _ part.1) in
      let no_eof : is_eof s.cur.kind ≡ false = eof_at s ∙ y in
      let some_left : left (advance s) < left s = left-advance_lt s h no_eof in
      let on : (is_eof (parts_from fuel t).1.cur.kind ≡ true)
          ⊎ (has_error (parts_from fuel t).1 ≡ true) =
        parts_from_ends fuel t (Steps-IsEnded h q') (
          IsEnough-left fuel s t enough no_eof (omega arith)
            (ensure_progress-left s part.1 (codes "design unit") h q)) in
      elim (Option-cases part.0) [
        | inl none_read ↦
            rw (y, none_read) (inr (parse_part-none (unit_class s.cur.kind) s none_read))
        | inr some_read ↦ rw (y, some_read.1) on
      ]
]

first-IsEnough : (s : State) → IsEnough (suc (left s)) s
unfolding IsEnough
first-IsEnough s = inl (omega arith)

pub parse_file-Steps : (s : State) → IsEnded s → Steps s (parse_file s).1
unfolding parse_file
parse_file-Steps s h = parts_from-Steps (suc (left s)) s h (first-IsEnough s)

-- On any source text the parser of files ends with messages of the source alone, so that no loop and no
-- recursion of the model is cut short, and EOF is still at the end of its tokens.
pub parse_source_reports :
    (src : Bytes) (f : File)
    → (all is_message (parse_source src f).1.errs ≡ true) × IsEnded (parse_source src f).1
parse_source_reports src f =
    let s : State = start (new_parser src f).toks in
    let h : IsEnded s = start-IsEnded src f in
    let q : Steps s (parse_file s).1 = parse_file-Steps s h in
    let (new, e, m) = Steps-errs q in
    (
      ap (all is_message) (e ∙ ap (λ es. es ++ new) (errs-start (new_parser src f).toks)) ∙ m,
      Steps-IsEnded h q,
    )

-- A source that is parsed without an error is parsed to its end: EOF is then the current token.
pub parse_source_ends :
    (src : Bytes) (f : File)
    → (parse_source src f).1.errs ≡ []
    → is_eof (parse_source src f).1.cur.kind ≡ true
unfolding parse_file
parse_source_ends src f none_reported =
    let s : State = start (new_parser src f).toks in
    elim (parts_from_ends (suc (left s)) s (start-IsEnded src f) (first-IsEnough s)) [
      | inl y ↦ y
      | inr e ↦ (let n : has_error (parse_file s).1 ≡ false = nonempty_none none_reported in cc)
    ]
