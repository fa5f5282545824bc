-- ===== src/Vhdl/Parser/Common/Moves.antt =====
-- tools/socgen/vhdl/parser.go: the shared phrases only advance and report.
use jcore_soc.Base.{
  ℕ, zero, suc, ◌≤◌, ◌<◌, refl, inl, inr, Bool, false, ◌||◌, arith, Bool-cases, Bytes,
}
use jcore_soc.Vhdl.Kind.{Kind, is_keyword}
use jcore_soc.Vhdl.Kind.Code.{is_selector}
use jcore_soc.Vhdl.Parser.{State, Parse, at, advance, expect, left}
use jcore_soc.Vhdl.Parser.Steps.{
  Steps, here, move, IsEnded, Steps-trans, advance-IsEnded, Steps-IsEnded, Steps-left, left-advance,
  at-left_lt, expect-Steps,
}
use jcore_soc.Vhdl.Parser.Loop.{items, unless_closed}
use jcore_soc.Vhdl.Parser.Loop.Moves.{Moves, items-Moves, unless_closed-Moves}
use jcore_soc.Vhdl.Parser.Expr.{parse_expr, parse_assoc_list}
use jcore_soc.Vhdl.Parser.Expr.Moves.{parse_paren_or_aggregate-Steps, parse_args-Moves}
use jcore_soc.Vhdl.Parser.Expr.Total.{parse_name-Steps}
use jcore_soc.Vhdl.Parser.Monad.{optional}
use jcore_soc.Vhdl.Parser.Monad.Moves.{parse_expr-Moves, moves}
use jcore_soc.Vhdl.Parser.Common.{
  dotted_from, dotted_behind, parse_dotted_name, parse_name_list, name_phrase, assoc_list,
  parse_constraint, parse_subtype_indication, keyword_text, parse_interface_decl,
  parse_interface_list, interface_part, parse_choices, parse_waveform_elem, parse_waveform,
  parse_delay_mechanism, parse_use_clause, map_part, arch_part, binding_unit,
  parse_binding_indication, name_or_all, parse_signature, parse_enum_lit, parse_entity_class_entry,
}

dotted_from-Steps :
    (fuel : ℕ) (text : Bytes) (s : State)
    → IsEnded s
    → left s < fuel
    → Steps s (dotted_from fuel text s).1
unfolding dotted_from
dotted_from-Steps zero text s h lt = elim lt [ ]
dotted_from-Steps (suc fuel) text s h lt = elim (Bool-cases (at Kind.dot s)) [
  | inl y ↦
      elim (Bool-cases (is_selector (advance s).cur.kind || is_keyword (advance s).cur.kind)) [
        | inl z ↦
            let shorter : left (advance s) < left s = at-left_lt Kind.dot s h y refl in
            let le : left (advance (advance s)) ≤ left (advance s) = left-advance (advance s) in
            rw (y, z)
              (move (
                move (
                  dotted_from-Steps fuel _ (advance (advance s))
                    (advance-IsEnded (advance s) (advance-IsEnded s h)) (omega arith))))
        | inr z ↦ rw (y, z) (move here)
      ]
  | inr y ↦ rw y here
]

dotted_behind-Moves : {n : ℕ} (text : Bytes) → Moves n (dotted_behind text)
unfolding dotted_behind
dotted_behind-Moves text s h lt = dotted_from-Steps (suc (left s)) text s h (omega arith)

pub parse_dotted_name-Moves : {n : ℕ} → Moves n parse_dotted_name
unfolding parse_dotted_name
parse_dotted_name-Moves = search (moves, dotted_behind-Moves)

pub name_phrase-Moves : {n : ℕ} → Moves n name_phrase
name_phrase-Moves {n} s h lt =
    move (parse_name-Steps n parse_expr parse_expr-Moves s h (omega arith))

pub assoc_list-Moves : {n : ℕ} → Moves n assoc_list
unfolding parse_assoc_list
assoc_list-Moves {n} s h lt =
    let q : Steps s (expect Kind.lparen s) = expect-Steps Kind.lparen s in
    let le : left (expect Kind.lparen s) ≤ left s = Steps-left q in
    Steps-trans q (
      parse_args-Moves n parse_expr parse_expr-Moves (expect Kind.lparen s) (Steps-IsEnded h q)
        (omega arith))

pub comma_list-Moves :
    {A : Type 0} {n : ℕ} (item : Parse A)
    → Moves n item
    → Moves n (items Kind.comma (λ _. false) item)
comma_list-Moves {n = n} item p = items-Moves n Kind.comma (λ _. false) refl item p

parse_constraint-Moves : {n : ℕ} → Moves n parse_constraint
unfolding parse_constraint
parse_constraint-Moves {n} s h lt = elim (Bool-cases (at Kind.lparen s)) [
  | inl y ↦
      rw y (move (parse_paren_or_aggregate-Steps n parse_expr parse_expr-Moves s h y (omega arith)))
  | inr y ↦ let p : Moves n (optional Kind.kw_range parse_expr) = search moves in rw y (p s h lt)
]

pub parse_name_list-Moves : {n : ℕ} → Moves n parse_name_list
unfolding parse_name_list
parse_name_list-Moves = search (moves, comma_list-Moves)

pub parse_subtype_indication-Moves : {n : ℕ} → Moves n parse_subtype_indication
unfolding parse_subtype_indication
parse_subtype_indication-Moves = search (moves, parse_dotted_name-Moves, parse_constraint-Moves)

pub keyword_text-Moves : {n : ℕ} (p : Kind → Bool) → Moves n (keyword_text p)
unfolding keyword_text
keyword_text-Moves p = search moves

parse_interface_decl-Moves : {n : ℕ} → Moves n parse_interface_decl
unfolding parse_interface_decl
parse_interface_decl-Moves =
    search (moves, keyword_text-Moves, parse_name_list-Moves, parse_subtype_indication-Moves) depth
      16

interfaces-Moves :
    {n : ℕ} → Moves n (unless_closed (items Kind.semicolon (at Kind.rparen) parse_interface_decl))
interfaces-Moves {n} = unless_closed-Moves _ (
    items-Moves n Kind.semicolon (at Kind.rparen) refl parse_interface_decl
      parse_interface_decl-Moves)

pub parse_interface_list-Moves : {n : ℕ} → Moves n parse_interface_list
unfolding parse_interface_list
parse_interface_list-Moves = search (moves, interfaces-Moves)

pub interface_part-Moves : {n : ℕ} (k : Kind) → Moves n (interface_part k)
unfolding interface_part
interface_part-Moves k = search (moves, parse_interface_list-Moves)

pub parse_choices-Moves : {n : ℕ} → Moves n parse_choices
unfolding parse_choices
parse_choices-Moves {n} = items-Moves n Kind.bar (λ _. false) refl parse_expr parse_expr-Moves

parse_waveform_elem-Moves : {n : ℕ} → Moves n parse_waveform_elem
unfolding parse_waveform_elem
parse_waveform_elem-Moves = search moves

pub parse_waveform-Moves : {n : ℕ} → Moves n parse_waveform
unfolding parse_waveform
parse_waveform-Moves = search (comma_list-Moves, parse_waveform_elem-Moves)

pub parse_delay_mechanism-Moves : {n : ℕ} → Moves n parse_delay_mechanism
unfolding parse_delay_mechanism
parse_delay_mechanism-Moves = search moves

pub parse_use_clause-Moves : {n : ℕ} → Moves n parse_use_clause
unfolding parse_use_clause
parse_use_clause-Moves = search (moves, comma_list-Moves, parse_dotted_name-Moves)

pub map_part-Moves : {n : ℕ} (k : Kind) → Moves n (map_part k)
unfolding map_part
map_part-Moves k = search (moves, assoc_list-Moves)

pub arch_part-Moves : {n : ℕ} → Moves n arch_part
unfolding arch_part
arch_part-Moves = search moves

binding_unit-Moves : {n : ℕ} → Moves n binding_unit
unfolding binding_unit
binding_unit-Moves = search (moves, parse_dotted_name-Moves, arch_part-Moves)

pub parse_binding_indication-Moves : {n : ℕ} → Moves n parse_binding_indication
unfolding parse_binding_indication
parse_binding_indication-Moves = search (moves, binding_unit-Moves, map_part-Moves) depth 16

pub name_or_all-Moves : {n : ℕ} (place : Bytes) → Moves n (name_or_all place)
unfolding name_or_all
name_or_all-Moves place = search moves depth 16

pub parse_signature-Moves : {n : ℕ} → Moves n parse_signature
unfolding parse_signature
parse_signature-Moves = search (moves, comma_list-Moves, parse_dotted_name-Moves) depth 16

pub parse_enum_lit-Moves : {n : ℕ} → Moves n parse_enum_lit
unfolding parse_enum_lit
parse_enum_lit-Moves = search moves depth 16

pub parse_entity_class_entry-Moves : {n : ℕ} → Moves n parse_entity_class_entry
unfolding parse_entity_class_entry
parse_entity_class_entry-Moves = search moves
