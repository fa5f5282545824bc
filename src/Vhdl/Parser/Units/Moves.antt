-- ===== src/Vhdl/Parser/Units/Moves.antt =====
-- tools/socgen/vhdl/parser.go: configurations, design units and files only advance and report, and the
-- fuel of the model is enough for them.
use jcore_soc.Base.{
  ℕ, zero, suc, ◌≤◌, ◌<◌, ◌≡◌, refl, inl, inr, true, false, Option, List, arith, Bool-cases, Bytes,
  codes,
}
use jcore_soc.Vhdl.Kind.{Kind, is_eof}
use jcore_soc.Vhdl.Kind.Code.{same_kind}
use jcore_soc.Vhdl.Nodes.{ConfigItem}
use jcore_soc.Vhdl.Parser.{State, Parse, at, advance, expect, errorf, left, peek_kind}
use jcore_soc.Vhdl.Parser.Steps.{
  Steps, here, Steps-trans, IsEnded, Steps-IsEnded, Steps-left, advance-IsEnded, left-advance_lt,
  at-left_lt, expect-Steps, same_kind-is_eof,
}
use jcore_soc.Vhdl.Parser.Loop.{items}
use jcore_soc.Vhdl.Parser.Loop.Moves.{Moves, left-items}
use jcore_soc.Vhdl.Parser.Monad.{◌>>=◌, value, current, at_kind, advancing, reporting, expecting}
use jcore_soc.Vhdl.Parser.Monad.Moves.{
  moves, guarded-Moves, guarded-MovesOn, MovesOn, bind_consumes, bind_left,
}
use jcore_soc.Vhdl.Parser.Common.{parse_use_clause, name_or_all, is_all_others}
use jcore_soc.Vhdl.Parser.Common.Moves.{
  parse_dotted_name-Moves, comma_list-Moves, interface_part-Moves, parse_use_clause-Moves,
  parse_binding_indication-Moves, name_or_all-Moves,
}
use jcore_soc.Vhdl.Parser.Declarations.Moves.{parse_decl-Moves}
use jcore_soc.Vhdl.Parser.Concurrent.Moves.{parse_concurrent_stmt-Moves}
use jcore_soc.Vhdl.Parser.Units.{
  use_clauses_from, use_clauses, optional_binding, spec_names, inner_block, component_config,
  block_config, config_item_behind, config_round, parse_config_from, parse_config_item, top_block,
  parse_configuration_decl, parse_package_decl, parse_package_body, entity_stmts, parse_entity_decl,
  parse_architecture_body, parse_library_clause, UnitClass, library_part, use_part, package_part,
  entity_part, architecture_part, configuration_part, no_part, parse_package, parse_part,
}

-- A use clause that is read at its `use` consumes it.
use_clause_shorter :
    (s : State) → IsEnded s → at Kind.kw_use s ≡ true → left (parse_use_clause s).1 < left s
unfolding parse_use_clause expecting expect
use_clause_shorter s h y =
    let shorter : left (advance s) < left s = at-left_lt Kind.kw_use s h y refl in
    let on : left (expecting Kind.kw_use s).1 < left s = rw y shorter in
    let le : left (parse_use_clause s).1 ≤ left (expecting Kind.kw_use s).1 =
      bind_left (expecting Kind.kw_use) _ s (Steps-IsEnded h (expect-Steps Kind.kw_use s))
        (λ _. search (moves, comma_list-Moves, parse_dotted_name-Moves)) in
    omega arith

name_or_all_shorter :
    (place : Bytes) (s : State)
    → IsEnded s
    → is_eof s.cur.kind ≡ false
    → left (name_or_all place s).1 < left s
unfolding name_or_all ◌>>=◌ current at_kind advancing value reporting errorf
name_or_all_shorter place s h e =
    let shorter : left (advance s) < left s = left-advance_lt s h e in
    elim (Bool-cases (at Kind.ident s)) [
      | inl y ↦ rw y shorter
      | inr y ↦ elim (Bool-cases (is_all_others s.cur.kind)) [
        | inl z ↦ rw (y, z) shorter
        | inr z ↦ rw (y, z) (left-advance_lt (errorf _ s) h e)
      ]
    ]

use_clauses_from-Steps :
    (fuel : ℕ) (s : State) → IsEnded s → left s < fuel → Steps s (use_clauses_from fuel s).1
unfolding use_clauses_from
use_clauses_from-Steps zero s h lt = elim lt [ ]
use_clauses_from-Steps (suc fuel) s h lt = elim (Bool-cases (at Kind.kw_use s)) [
  | inl y ↦
      let q : Steps s (parse_use_clause s).1 =
        parse_use_clause-Moves {n = suc (left s)} s h (omega arith) in
      let shorter : left (parse_use_clause s).1 < left s = use_clause_shorter s h y in
      rw y (
        Steps-trans q
          (use_clauses_from-Steps fuel (parse_use_clause s).1 (Steps-IsEnded h q) (omega arith)))
  | inr y ↦ rw y here
]

use_clauses-Moves : {n : ℕ} → Moves n use_clauses
unfolding use_clauses
use_clauses-Moves s h lt = use_clauses_from-Steps (suc (left s)) s h (omega arith)

optional_binding-Moves : {n : ℕ} → Moves n optional_binding
unfolding optional_binding
optional_binding-Moves = search (moves, parse_binding_indication-Moves)

spec_names-Moves : {n : ℕ} → Moves n spec_names
unfolding spec_names
spec_names-Moves = search (moves, comma_list-Moves, name_or_all-Moves)

spec : Parse Bytes
spec = name_or_all (codes "configuration spec name")

spec-Moves : {n : ℕ} → Moves n spec
unfolding spec
spec-Moves = name_or_all-Moves _

-- The first name of a configuration item, behind its `for`.
first_spec_shorter :
    (s : State)
    → IsEnded s
    → is_eof s.cur.kind ≡ false
    → left (spec (expect Kind.kw_for s)).1 < left s
unfolding expect spec errorf
first_spec_shorter s h e = elim (Bool-cases (at Kind.kw_for s)) [
  | inl y ↦
      let shorter : left (advance s) < left s = at-left_lt Kind.kw_for s h y refl in
      let le : left (name_or_all (codes "configuration spec name") (advance s)).1
          ≤ left (advance s) =
        Steps-left (name_or_all-Moves {n = left s} _ (advance s) (advance-IsEnded s h) shorter) in
      rw y (omega arith)
  | inr y ↦ rw y (name_or_all_shorter _ (errorf _ s) h e)
]

-- The names of a configuration item consume a token, the `for` or the first of them.
spec_names_shorter :
    (s : State) → IsEnded s → is_eof s.cur.kind ≡ false → left (spec_names s).1 < left s
unfolding spec_names ◌>>=◌ expecting spec
spec_names_shorter s h e =
    let t : State = expect Kind.kw_for s in
    let ht : IsEnded t = Steps-IsEnded h (expect-Steps Kind.kw_for s) in
    let le : left (items Kind.comma (λ _. false) spec t).1 ≤ left (spec t).1 =
      left-items Kind.comma (λ _. false) refl spec t
        (Steps-IsEnded ht (spec-Moves {n = suc (left t)} t ht (omega arith))) spec-Moves in
    let lt : left (spec t).1 < left s = first_spec_shorter s h e in omega arith

module _ (n : ℕ) (self : Parse (Option ConfigItem)) (self-MovesOn : MovesOn n self) where
  inner_block-Moves : Moves n (inner_block self)
  unfolding inner_block ◌>>=◌ at_kind at value
  inner_block-Moves s h lt = elim (Bool-cases (at Kind.kw_for s)) [
    | inl y ↦ rw y (self-MovesOn s h lt (same_kind-is_eof s.cur.kind Kind.kw_for y))
    | inr y ↦ rw y here
  ]

  component_config-Moves : (specs : List Bytes) → Moves n (component_config self specs)
  unfolding component_config
  component_config-Moves specs =
      search (moves, parse_dotted_name-Moves, optional_binding-Moves, inner_block-Moves) depth 20

  block_config-Moves : (specs : List Bytes) → Moves n (block_config self specs)
  unfolding block_config
  block_config-Moves specs =
      search (moves, use_clauses-Moves, guarded-MovesOn, self-MovesOn) depth 20

  config_item_behind-Moves : (specs : List Bytes) → Moves n (config_item_behind self specs)
  unfolding config_item_behind
  config_item_behind-Moves specs = search (moves, component_config-Moves, block_config-Moves)

  config_round-MovesOn : MovesOn (suc n) (config_round self)
  unfolding config_round
  config_round-MovesOn s h lt e =
      bind_consumes spec_names (config_item_behind self) s h (omega arith)
        (spec_names-Moves {n = suc n} s h lt) (spec_names_shorter s h e) config_item_behind-Moves

parse_config_from-MovesOn : (n : ℕ) → MovesOn n (parse_config_from n)
unfolding parse_config_from
parse_config_from-MovesOn zero s h lt e = elim lt [ ]
parse_config_from-MovesOn (suc n) s h lt e =
    config_round-MovesOn n (parse_config_from n) (parse_config_from-MovesOn n) s h lt e

parse_config_item-MovesOn : {n : ℕ} → MovesOn n parse_config_item
unfolding parse_config_item
parse_config_item-MovesOn s h lt e = parse_config_from-MovesOn (suc (left s)) s h (omega arith) e

top_block-Moves : {n : ℕ} → Moves n top_block
unfolding top_block ◌>>=◌ at_kind at value
top_block-Moves {n} s h lt = elim (Bool-cases (at Kind.kw_for s)) [
  | inl y ↦
      rw y (parse_config_item-MovesOn {n = n} s h lt (same_kind-is_eof s.cur.kind Kind.kw_for y))
  | inr y ↦ rw y here
]

ruleset phrases = (
  moves, parse_dotted_name-Moves, comma_list-Moves, interface_part-Moves, parse_use_clause-Moves,
  guarded-Moves, parse_decl-Moves, parse_concurrent_stmt-Moves,
)

parse_configuration_decl-Moves : {n : ℕ} → Moves n parse_configuration_decl
unfolding parse_configuration_decl
parse_configuration_decl-Moves = search (phrases, use_clauses-Moves, top_block-Moves) depth 32

parse_package_decl-Moves : {n : ℕ} → Moves n parse_package_decl
unfolding parse_package_decl
parse_package_decl-Moves = search phrases depth 24

parse_package_body-Moves : {n : ℕ} → Moves n parse_package_body
unfolding parse_package_body
parse_package_body-Moves = search phrases depth 24

entity_stmts-Moves : {n : ℕ} → Moves n entity_stmts
unfolding entity_stmts
entity_stmts-Moves = search phrases depth 16

parse_entity_decl-Moves : {n : ℕ} → Moves n parse_entity_decl
unfolding parse_entity_decl
parse_entity_decl-Moves = search (phrases, entity_stmts-Moves) depth 32

parse_architecture_body-Moves : {n : ℕ} → Moves n parse_architecture_body
unfolding parse_architecture_body
parse_architecture_body-Moves = search phrases depth 32

parse_library_clause-Moves : {n : ℕ} → Moves n parse_library_clause
unfolding parse_library_clause
parse_library_clause-Moves = search phrases depth 16

parse_package-Moves : {n : ℕ} → Moves n parse_package
unfolding parse_package
parse_package-Moves s h lt = elim (Bool-cases (same_kind (peek_kind 1 s) Kind.kw_body)) [
  | inl y ↦ rw y (parse_package_body-Moves s h lt)
  | inr y ↦ rw y (parse_package_decl-Moves s h lt)
]

pub parse_part-Moves : {n : ℕ} (c : UnitClass) → Moves n (parse_part c)
unfolding parse_part
parse_part-Moves library_part = search (moves, parse_library_clause-Moves)
parse_part-Moves use_part = search (moves, parse_use_clause-Moves)
parse_part-Moves package_part = search (moves, parse_package-Moves)
parse_part-Moves entity_part = search (moves, parse_entity_decl-Moves)
parse_part-Moves architecture_part = search (moves, parse_architecture_body-Moves)
parse_part-Moves configuration_part = search (moves, parse_configuration_decl-Moves)
parse_part-Moves no_part = search moves
