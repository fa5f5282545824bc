-- ===== src/Vhdl/Parser/Declarations/Moves.antt =====
-- tools/socgen/vhdl/parser.go: declarations only advance and report, and the fuel of the model is
-- enough for them.
use jcore_soc.Base.{
  ℕ, zero, suc, ◌<◌, ◌≡◌, refl, ◌∙◌, inl, inr, false, ◌||◌, Option, List, arith, Bool-cases, Bytes,
}
use jcore_soc.Vhdl.Kind.{Kind, is_eof}
use jcore_soc.Vhdl.Ast.{Expr}
use jcore_soc.Vhdl.Nodes.{Decl, Subprogram}
use jcore_soc.Vhdl.Parser.{State, Parse, at, advance, left}
use jcore_soc.Vhdl.Parser.Steps.{Steps, here, move, IsEnded, advance-IsEnded, left-advance_lt}
use jcore_soc.Vhdl.Parser.Loop.Moves.{Moves}
use jcore_soc.Vhdl.Parser.Monad.Moves.{
  moves, bind-Moves, when_at-suc, guarded-Moves, dispatch-Moves, reporting_at-Moves, eof_at,
  ||-false_right,
}
use jcore_soc.Vhdl.Parser.Common.Moves.{
  parse_dotted_name-Moves, name_phrase-Moves, comma_list-Moves, parse_name_list-Moves,
  parse_subtype_indication-Moves, keyword_text-Moves, parse_interface_list-Moves,
  interface_part-Moves, parse_use_clause-Moves, parse_binding_indication-Moves, name_or_all-Moves,
  parse_signature-Moves, parse_enum_lit-Moves, parse_entity_class_entry-Moves,
}
use jcore_soc.Vhdl.Parser.Sequential.Moves.{seq_stmts_until-Moves}
use jcore_soc.Vhdl.Parser.Declarations.{
  DeclClass, constant_class, signal_class, variable_class, shared_class, subtype_class, type_class,
  component_class, subprogram_class, attribute_class, alias_class, group_class, file_class,
  use_class, for_class, no_class, decl_class, object_rest, parse_constant_or_signal,
  parse_variable_decl, parse_shared_variable_decl, parse_subtype_decl, parse_record_field,
  texts_from, texts_to_semicolon, parse_array_def, parse_type_def, parse_type_decl,
  parse_component_decl, entity_class, parse_attribute, alias_signature, parse_alias_decl,
  parse_group_decl, file_open, parse_file_decl, parse_config_spec, parse_designator,
  closing_designator, subprogram_params, subprogram_spec, subprogram_body, parse_subprogram_decl,
  parse_decl_of, decl_round, parse_decl_from, parse_decl,
}

-- The phrases of declarations, besides the parts of a `do` block.
ruleset phrases = (
  moves, parse_dotted_name-Moves, name_phrase-Moves, comma_list-Moves, parse_name_list-Moves,
  parse_subtype_indication-Moves, keyword_text-Moves, parse_interface_list-Moves,
  interface_part-Moves, parse_use_clause-Moves, parse_binding_indication-Moves, name_or_all-Moves,
  parse_signature-Moves, parse_enum_lit-Moves, parse_entity_class_entry-Moves,
)

object_rest-Moves :
    {n : ℕ} (node : List Bytes → Bytes → Option Expr → Option Expr → Decl)
    → Moves n (object_rest node)
unfolding object_rest
object_rest-Moves node = search phrases depth 20

objects-Moves :
    {n : ℕ} (node : List Bytes → Bytes → Option Expr → Option Expr → Decl)
    → Moves n (parse_constant_or_signal node)
unfolding parse_constant_or_signal
objects-Moves node = search (moves, object_rest-Moves)

parse_variable_decl-Moves : {n : ℕ} → Moves n parse_variable_decl
unfolding parse_variable_decl
parse_variable_decl-Moves = search (moves, object_rest-Moves)

parse_shared_variable_decl-Moves : {n : ℕ} → Moves n parse_shared_variable_decl
unfolding parse_shared_variable_decl
parse_shared_variable_decl-Moves = search (moves, object_rest-Moves)

parse_subtype_decl-Moves : {n : ℕ} → Moves n parse_subtype_decl
unfolding parse_subtype_decl
parse_subtype_decl-Moves = search phrases depth 20

parse_record_field-Moves : {n : ℕ} → Moves n parse_record_field
unfolding parse_record_field
parse_record_field-Moves = search phrases depth 20

texts_from-Steps :
    (fuel : ℕ) (s : State) → IsEnded s → left s < fuel → Steps s (texts_from fuel s).1
unfolding texts_from
texts_from-Steps zero s h lt = elim lt [ ]
texts_from-Steps (suc fuel) s h lt = elim (Bool-cases (at Kind.semicolon s || at Kind.eof s)) [
  | inl y ↦ rw y here
  | inr y ↦
      let no_eof : is_eof s.cur.kind ≡ false = eof_at s ∙ ||-false_right _ _ y in
      let shorter : left (advance s) < left s = left-advance_lt s h no_eof in
      rw y (move (texts_from-Steps fuel (advance s) (advance-IsEnded s h) (omega arith)))
]

texts_to_semicolon-Moves : {n : ℕ} → Moves n texts_to_semicolon
unfolding texts_to_semicolon
texts_to_semicolon-Moves s h lt = texts_from-Steps (suc (left s)) s h (omega arith)

parse_array_def-Moves : {n : ℕ} → Moves n parse_array_def
unfolding parse_array_def
parse_array_def-Moves = search (moves, texts_to_semicolon-Moves)

parse_type_def-Moves : {n : ℕ} → Moves n parse_type_def
unfolding parse_type_def
parse_type_def-Moves =
    search
      (
        phrases, parse_array_def-Moves, guarded-Moves, parse_record_field-Moves,
        texts_to_semicolon-Moves,
      )
      depth 24

parse_type_decl-Moves : {n : ℕ} → Moves n parse_type_decl
unfolding parse_type_decl
parse_type_decl-Moves = search (moves, parse_type_def-Moves) depth 20

parse_component_decl-Moves : {n : ℕ} → Moves n parse_component_decl
unfolding parse_component_decl
parse_component_decl-Moves = search phrases depth 24

entity_class-Moves : {n : ℕ} → Moves n entity_class
unfolding entity_class
entity_class-Moves = search (moves, reporting_at-Moves)

parse_attribute-Moves : {n : ℕ} → Moves n parse_attribute
unfolding parse_attribute
parse_attribute-Moves = search (phrases, entity_class-Moves) depth 24

alias_signature-Moves : {n : ℕ} → Moves n alias_signature
unfolding alias_signature
alias_signature-Moves = search phrases

parse_alias_decl-Moves : {n : ℕ} → Moves n parse_alias_decl
unfolding parse_alias_decl
parse_alias_decl-Moves = search (phrases, alias_signature-Moves) depth 24

parse_group_decl-Moves : {n : ℕ} → Moves n parse_group_decl
unfolding parse_group_decl
parse_group_decl-Moves = search phrases depth 24

file_open-Moves : {n : ℕ} → Moves n file_open
unfolding file_open
file_open-Moves = search phrases depth 20

parse_file_decl-Moves : {n : ℕ} → Moves n parse_file_decl
unfolding parse_file_decl
parse_file_decl-Moves = search (phrases, file_open-Moves) depth 20

parse_config_spec-Moves : {n : ℕ} → Moves n parse_config_spec
unfolding parse_config_spec
parse_config_spec-Moves = search phrases depth 20

parse_designator-Moves : {n : ℕ} → Moves n parse_designator
unfolding parse_designator
parse_designator-Moves = search moves depth 16

closing_designator-Moves : {n : ℕ} → Moves n closing_designator
unfolding closing_designator
closing_designator-Moves = search moves depth 16

subprogram_params-Moves : {n : ℕ} → Moves n subprogram_params
unfolding subprogram_params
subprogram_params-Moves = search phrases

subprogram_spec-Moves : {n : ℕ} → Moves n subprogram_spec
unfolding subprogram_spec
subprogram_spec-Moves = search (phrases, parse_designator-Moves, subprogram_params-Moves) depth 24

module _ (n : ℕ) (self : Parse (Option Decl)) (self-Moves : Moves n self) where
  subprogram_body-Moves : (spec : Subprogram) → Moves n (subprogram_body self spec)
  unfolding subprogram_body
  subprogram_body-Moves spec =
      search (moves, guarded-Moves, self-Moves, seq_stmts_until-Moves, closing_designator-Moves)
        depth 24

  parse_subprogram_decl-Moves : Moves (suc n) (parse_subprogram_decl self)
  unfolding parse_subprogram_decl
  parse_subprogram_decl-Moves = bind-Moves subprogram_spec _ subprogram_spec-Moves (λ spec.
      when_at-suc Kind.kw_is (subprogram_body self spec) _ refl (subprogram_body-Moves spec)
        (search moves))

  parse_decl_of-Moves : (c : DeclClass) → Moves (suc n) (parse_decl_of self c)
  unfolding parse_decl_of
  parse_decl_of-Moves constant_class = objects-Moves _
  parse_decl_of-Moves signal_class = objects-Moves _
  parse_decl_of-Moves variable_class = parse_variable_decl-Moves
  parse_decl_of-Moves shared_class = parse_shared_variable_decl-Moves
  parse_decl_of-Moves subtype_class = parse_subtype_decl-Moves
  parse_decl_of-Moves type_class = parse_type_decl-Moves
  parse_decl_of-Moves component_class = parse_component_decl-Moves
  parse_decl_of-Moves subprogram_class = parse_subprogram_decl-Moves
  parse_decl_of-Moves attribute_class = parse_attribute-Moves
  parse_decl_of-Moves alias_class = parse_alias_decl-Moves
  parse_decl_of-Moves group_class = parse_group_decl-Moves
  parse_decl_of-Moves file_class = parse_file_decl-Moves
  parse_decl_of-Moves use_class = search phrases
  parse_decl_of-Moves for_class = parse_config_spec-Moves
  parse_decl_of-Moves no_class = search moves

  decl_round-Moves : Moves (suc n) (decl_round self)
  unfolding decl_round
  decl_round-Moves =
      dispatch-Moves (λ k. parse_decl_of self (decl_class k))
        (λ k s e h lt. parse_decl_of-Moves (decl_class k) s h lt)

parse_decl_from-Moves : (n : ℕ) → Moves n (parse_decl_from n)
unfolding parse_decl_from
parse_decl_from-Moves zero s h lt = elim lt [ ]
parse_decl_from-Moves (suc n) s h lt =
    decl_round-Moves n (parse_decl_from n) (parse_decl_from-Moves n) s h lt

pub parse_decl-Moves : {n : ℕ} → Moves n parse_decl
unfolding parse_decl
parse_decl-Moves s h lt = parse_decl_from-Moves (suc (left s)) s h (omega arith)
