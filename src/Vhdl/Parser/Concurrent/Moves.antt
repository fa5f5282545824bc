-- ===== src/Vhdl/Parser/Concurrent/Moves.antt =====
-- tools/socgen/vhdl/parser.go: concurrent statements only advance and report, and the fuel of the
-- model is enough for them.
use jcore_soc.Base.{
  ℕ, zero, suc, ◌≤◌, ◌<◌, ◌≡◌, refl, ap, ◌≢◌, inl, inr, false, Option, none, [], ◌∷◌, arith,
  Bool-cases, Bytes,
}
use jcore_soc.Vhdl.Kind.{Kind, is_eof}
use jcore_soc.Vhdl.Ast.{Expr}
use jcore_soc.Vhdl.Nodes.{Stmt}
use jcore_soc.Vhdl.Parser.{State, Parse, at, advance, left}
use jcore_soc.Vhdl.Parser.Steps.{
  Steps, here, move, Steps-trans, IsEnded, Steps-IsEnded, Steps-left, advance-IsEnded, at-left_lt,
  advance-Steps,
}
use jcore_soc.Vhdl.Parser.Loop.{unless_closed}
use jcore_soc.Vhdl.Parser.Loop.Moves.{Moves, unless_closed-Moves}
use jcore_soc.Vhdl.Parser.Expr.{parse_expr}
use jcore_soc.Vhdl.Parser.Expr.Moves.{then_Moves}
use jcore_soc.Vhdl.Parser.Monad.{comma_list, parse_label}
use jcore_soc.Vhdl.Parser.Monad.Moves.{
  moves, bind-Moves, parse_expr-Moves, guarded-Moves, dispatch-Moves, closing-Moves,
  parse_label-Moves, advancing_consumes,
}
use jcore_soc.Vhdl.Parser.Common.{name_phrase, parse_waveform}
use jcore_soc.Vhdl.Parser.Common.Moves.{
  parse_dotted_name-Moves, name_phrase-Moves, comma_list-Moves, parse_choices-Moves,
  parse_waveform-Moves, parse_delay_mechanism-Moves, map_part-Moves, arch_part-Moves,
}
use jcore_soc.Vhdl.Parser.Sequential.Moves.{
  parse_discrete_range-Moves, parse_assert_stmt-Moves, deferred-Moves, parse_sequential_stmt-Moves,
}
use jcore_soc.Vhdl.Parser.Declarations.Moves.{parse_decl-Moves}
use jcore_soc.Vhdl.Parser.Concurrent.{
  ConcClass, deferred_class, with_class, assert_class, process_class, for_class, if_class,
  entity_class, component_class, configuration_class, name_class, conc_class, selected_waveform,
  parse_selected_assign, sensitivity, parse_process, finish_instantiation, else_arms_from,
  else_arms, concurrent_assign, deferred_concurrent, call_or_instance, named_statement,
  generate_rest, for_generate, if_generate, parse_conc_of, conc_round, parse_conc_from,
  parse_concurrent_stmt,
}

ruleset phrases = (
  moves, parse_dotted_name-Moves, name_phrase-Moves, comma_list-Moves, parse_choices-Moves,
  parse_waveform-Moves, parse_delay_mechanism-Moves, map_part-Moves, arch_part-Moves,
)

selected_waveform-Moves : {n : ℕ} → Moves n selected_waveform
unfolding selected_waveform
selected_waveform-Moves = search phrases depth 16

parse_selected_assign-Moves : {n : ℕ} (label : Bytes) → Moves n (parse_selected_assign label)
unfolding parse_selected_assign
parse_selected_assign-Moves label = search (phrases, selected_waveform-Moves) depth 24

names-Moves : {n : ℕ} → Moves n (unless_closed (comma_list name_phrase))
names-Moves = unless_closed-Moves _ (comma_list-Moves name_phrase name_phrase-Moves)

sensitivity-Moves : {n : ℕ} → Moves n sensitivity
unfolding sensitivity
sensitivity-Moves = search (moves, names-Moves)

parse_process-Moves : {n : ℕ} (label : Bytes) → Moves n (parse_process label)
unfolding parse_process
parse_process-Moves label =
    search (moves, sensitivity-Moves, guarded-Moves, parse_decl-Moves, parse_sequential_stmt-Moves)
      depth 32

finish_instantiation-Moves :
    {n : ℕ} (label : Bytes) (kind : Option Kind) (unit arch : Bytes)
    → Moves n (finish_instantiation label kind unit arch)
unfolding finish_instantiation
finish_instantiation-Moves label kind unit arch = search phrases depth 16

else_arms_from-Steps :
    (fuel : ℕ) (s : State) → IsEnded s → left s < fuel → Steps s (else_arms_from fuel s).1
unfolding else_arms_from
else_arms_from-Steps zero s h lt = elim lt [ ]
else_arms_from-Steps (suc fuel) s h lt = elim (Bool-cases (at Kind.kw_else s)) [
  | inl y ↦
      let shorter : left (advance s) < left s = at-left_lt Kind.kw_else s h y refl in
      let h0 : IsEnded (advance s) = advance-IsEnded s h in
      let s1 : State = (parse_waveform (advance s)).1 in
      let q : Steps (advance s) s1 =
        parse_waveform-Moves {n = suc (left (advance s))} (advance s) h0 (omega arith) in
      let le1 : left s1 ≤ left (advance s) = Steps-left q in
      let q2 : Steps (advance s) (parse_expr (advance s1)).1 =
        then_Moves parse_expr (parse_expr-Moves {n = suc (left (advance s))}) (advance s)
          (advance s1) h0 (omega arith) (Steps-trans q (advance-Steps s1)) in
      let s2 : State = (parse_expr (advance s1)).1 in
      let le2 : left s2 ≤ left (advance s) = Steps-left q2 in
      elim (Bool-cases (at Kind.kw_when s1)) [
        | inl z ↦
            rw (y, z)
              (move
                (Steps-trans q2 (else_arms_from-Steps fuel s2 (Steps-IsEnded h0 q2) (omega arith))))
        | inr z ↦ rw (y, z) (move q)
      ]
  | inr y ↦ rw y here
]

else_arms-Moves : {n : ℕ} → Moves n else_arms
unfolding else_arms
else_arms-Moves s h lt = else_arms_from-Steps (suc (left s)) s h (omega arith)

concurrent_assign-Moves :
    {n : ℕ} (label : Bytes) (target : Expr) → Moves n (concurrent_assign label target)
unfolding concurrent_assign
concurrent_assign-Moves label target = search (phrases, else_arms-Moves) depth 20

deferred_concurrent-Moves : {n : ℕ} → Moves n deferred_concurrent
unfolding deferred_concurrent
deferred_concurrent-Moves = deferred-Moves _

call_or_instance-Moves :
    {n : ℕ} (label : Bytes) (target : Expr) → Moves n (call_or_instance label target)
unfolding call_or_instance
call_or_instance-Moves label (Expr.call_expr f args) = search (moves, deferred_concurrent-Moves)
call_or_instance-Moves [] (Expr.ident name) = deferred_concurrent-Moves
call_or_instance-Moves (c ∷ label) (Expr.ident name) =
    finish_instantiation-Moves (c ∷ label) none name []
call_or_instance-Moves label _ = deferred_concurrent-Moves

named_statement-Moves : {n : ℕ} (label : Bytes) → Moves n (named_statement label)
unfolding named_statement
named_statement-Moves label =
    search (moves, name_phrase-Moves, concurrent_assign-Moves, call_or_instance-Moves)

class-is_eof : (k : Kind) → conc_class k ≢ name_class → is_eof k ≡ false
unfolding conc_class
class-is_eof Kind.eof h = absurd (h refl)
class-is_eof _ h = refl

module _ (n : ℕ) (self : Parse (Option Stmt)) (self-Moves : Moves n self) where
  generate_rest-Moves :
      (label : Bytes) (kind : Kind) (param : Bytes) (range cond : Option Expr)
      → Moves n (generate_rest self label kind param range cond)
  unfolding generate_rest
  generate_rest-Moves label kind param range cond =
      search (moves, guarded-Moves, parse_decl-Moves, self-Moves, closing-Moves) depth 24

  for_generate-Moves : (label : Bytes) → Moves n (for_generate self label)
  unfolding for_generate
  for_generate-Moves label =
      search (moves, parse_discrete_range-Moves, generate_rest-Moves) depth 16

  if_generate-Moves : (label : Bytes) → Moves n (if_generate self label)
  unfolding if_generate
  if_generate-Moves label = search (moves, generate_rest-Moves) depth 16

  parse_conc_of-Steps :
      (label : Bytes) (c : ConcClass) (s : State)
      → conc_class s.cur.kind ≡ c
      → IsEnded s
      → left s < suc n
      → Steps s (parse_conc_of self label c s).1
  unfolding parse_conc_of
  parse_conc_of-Steps label deferred_class s e h lt = deferred_concurrent-Moves s h lt
  parse_conc_of-Steps label with_class s e h lt = parse_selected_assign-Moves label s h lt
  parse_conc_of-Steps label assert_class s e h lt = parse_assert_stmt-Moves label s h lt
  parse_conc_of-Steps label process_class s e h lt = parse_process-Moves label s h lt
  parse_conc_of-Steps label for_class s e h lt =
      advancing_consumes (λ _. for_generate self label) s h (omega arith)
        (class-is_eof s.cur.kind (λ o. cc)) (λ _. for_generate-Moves label)
  parse_conc_of-Steps label if_class s e h lt =
      advancing_consumes (λ _. if_generate self label) s h (omega arith)
        (class-is_eof s.cur.kind (λ o. cc)) (λ _. if_generate-Moves label)
  parse_conc_of-Steps label entity_class s e h lt = entity s h lt
    where
      entity : Moves (suc n) (parse_conc_of self label entity_class)
      entity = search (phrases, finish_instantiation-Moves) depth 16
  parse_conc_of-Steps label component_class s e h lt = component s h lt
    where
      component : Moves (suc n) (parse_conc_of self label component_class)
      component = search (phrases, finish_instantiation-Moves) depth 16
  parse_conc_of-Steps label configuration_class s e h lt = configuration s h lt
    where
      configuration : Moves (suc n) (parse_conc_of self label configuration_class)
      configuration = search (phrases, finish_instantiation-Moves) depth 16
  parse_conc_of-Steps label name_class s e h lt = named_statement-Moves label s h lt

  conc_round-Moves : Moves (suc n) (conc_round self)
  unfolding conc_round
  conc_round-Moves = bind-Moves parse_label _ parse_label-Moves (λ label.
      dispatch-Moves (λ k. parse_conc_of self label (conc_class k))
        (λ k s e h lt. parse_conc_of-Steps label (conc_class k) s (ap conc_class e) h lt))

parse_conc_from-Moves : (n : ℕ) → Moves n (parse_conc_from n)
unfolding parse_conc_from
parse_conc_from-Moves zero s h lt = elim lt [ ]
parse_conc_from-Moves (suc n) s h lt =
    conc_round-Moves n (parse_conc_from n) (parse_conc_from-Moves n) s h lt

pub parse_concurrent_stmt-Moves : {n : ℕ} → Moves n parse_concurrent_stmt
unfolding parse_concurrent_stmt
parse_concurrent_stmt-Moves s h lt = parse_conc_from-Moves (suc (left s)) s h (omega arith)
