-- ===== src/Vhdl/Parser/Sequential.antt =====
-- tools/socgen/vhdl/parser.go: sequential statements. `self` stands for the recursive call of
-- `parseSequentialStmt`.
pub mod Moves
use jcore_soc.Base.{
  ℕ, zero, suc, Bool, true, false, Option, none, some, [], if◌then◌else◌, Bytes, codes,
}
use jcore_soc.Vhdl.Kind.{Kind}
use jcore_soc.Vhdl.Ast.{Expr, no_assoc}
use jcore_soc.Vhdl.Nodes.{Stmt, Stmts, no_stmt, to_stmts, to_elsifs, to_alts}
use jcore_soc.Vhdl.Parser.{Parse, errorf, out_of_fuel, left}
use jcore_soc.Vhdl.Parser.Expr.{parse_expr, parse_discrete_range, expr_string}
use jcore_soc.Vhdl.Parser.Monad.{
  ◌>>=◌, ◌>>◌, value, current, at_kind, advancing, expecting, identifier, reporting, when_at,
  optional, guarded, while_at, comma_list, dispatch, optional_name, closing, parse_label, is_end,
}
use jcore_soc.Vhdl.Parser.Common.{name_phrase, parse_choices, parse_waveform, parse_delay_mechanism}

-- The labels of the `switch` in `parseSequentialStmt`, and the statements behind it.
pub data SeqClass : Type 0 where
  null_class if_class case_class loop_class next_class exit_class return_class : SeqClass
  wait_class assert_class report_class name_class : SeqClass

unfoldable pub seq_class : Kind → SeqClass
seq_class Kind.kw_null = null_class
seq_class Kind.kw_if = if_class
seq_class Kind.kw_case = case_class
seq_class Kind.kw_for = loop_class
seq_class Kind.kw_while = loop_class
seq_class Kind.kw_loop = loop_class
seq_class Kind.kw_next = next_class
seq_class Kind.kw_exit = exit_class
seq_class Kind.kw_return = return_class
seq_class Kind.kw_wait = wait_class
seq_class Kind.kw_assert = assert_class
seq_class Kind.kw_report = report_class
seq_class _ = name_class

unfoldable pub is_if_stop : Kind → Bool
is_if_stop Kind.kw_elsif = true
is_if_stop Kind.kw_else = true
is_if_stop Kind.kw_end = true
is_if_stop _ = false

unfoldable pub is_case_stop : Kind → Bool
is_case_stop Kind.kw_when = true
is_case_stop Kind.kw_end = true
is_case_stop _ = false

unfoldable pub parse_next_exit : Kind → (Bytes → Option Expr → Stmt) → Parse (Option Stmt)
parse_next_exit k node = do
  expecting k
  loop_label ← optional_name
  when ← optional Kind.kw_when parse_expr
  expecting Kind.semicolon
  value (some (node loop_label when))

unfoldable pub parse_return : Bytes → Parse (Option Stmt)
parse_return label = do
  advancing
  bare ← at_kind Kind.semicolon
  x ← if bare then value none else (do e ← parse_expr; value (some e))
  expecting Kind.semicolon
  value (some (Stmt.return_stmt label x))

unfoldable pub parse_wait_stmt : Bytes → Parse (Option Stmt)
parse_wait_stmt label = do
  expecting Kind.kw_wait
  on ← when_at Kind.kw_on (comma_list name_phrase) (value [])
  until ← optional Kind.kw_until parse_expr
  for ← optional Kind.kw_for parse_expr
  expecting Kind.semicolon
  value (some (Stmt.wait_stmt label on until for))

unfoldable pub parse_assert_stmt : Bytes → Parse (Option Stmt)
parse_assert_stmt label = do
  expecting Kind.kw_assert
  cond ← parse_expr
  report ← optional Kind.kw_report parse_expr
  severity ← optional Kind.kw_severity parse_expr
  expecting Kind.semicolon
  value (some (Stmt.assert_stmt label cond report severity))

unfoldable pub parse_report_stmt : Bytes → Parse (Option Stmt)
parse_report_stmt label = do
  expecting Kind.kw_report
  report ← parse_expr
  severity ← optional Kind.kw_severity parse_expr
  expecting Kind.semicolon
  value (some (Stmt.report_stmt label report severity))

unfoldable pub deferred : Bytes → Parse (Option Stmt)
deferred place = do reporting place; value none

-- A procedure call; `procCall` is applied to a call or a plain name only.
unfoldable pub parse_call : Bytes → Expr → Parse (Option Stmt)
parse_call label (Expr.call_expr f args) = do
  expecting Kind.semicolon
  value (some (Stmt.procedure_call label (expr_string f) args))
parse_call label (Expr.ident name) =
    when_at Kind.semicolon (value (some (Stmt.procedure_call label name no_assoc)))
      (deferred (codes "sequential statement"))
parse_call label _ = deferred (codes "sequential statement")

unfoldable pub parse_assignment : Bytes → Parse (Option Stmt)
parse_assignment label = do
  target ← name_phrase
  when_at Kind.less_eq
      (do
        delay ← parse_delay_mechanism
        waveform ← parse_waveform
        expecting Kind.semicolon
        value (some (Stmt.signal_assign label target delay waveform)))
      (when_at Kind.assign
        (do
          x ← parse_expr
          expecting Kind.semicolon
          value (some (Stmt.variable_assign label target x)))
        (parse_call label target))

module _ (self : Parse (Option Stmt)) where
  unfoldable pub stmts_until : (Kind → Bool) → Parse Stmts
  stmts_until stop = do
    stmts ← guarded stop (codes "sequential statement") self
    value (to_stmts stmts)

  unfoldable pub if_rest : Bytes → Parse (Option Stmt)
  if_rest label = do
    cond ← parse_expr
    expecting Kind.kw_then
    then_part ← stmts_until is_if_stop
    elsifs ←
        while_at Kind.kw_elsif (do
          c ← parse_expr
          expecting Kind.kw_then
          body ← stmts_until is_if_stop
          value (c, body))
    else_part ← when_at Kind.kw_else (stmts_until is_end) (value no_stmt)
    closing Kind.kw_if
    value (some (Stmt.if_stmt label cond then_part (to_elsifs elsifs) else_part))

  unfoldable pub parse_if_stmt : Bytes → Parse (Option Stmt)
  parse_if_stmt label = do expecting Kind.kw_if; if_rest label

  unfoldable pub case_rest : Bytes → Parse (Option Stmt)
  case_rest label = do
    x ← parse_expr
    expecting Kind.kw_is
    alts ← while_at Kind.kw_when (do
      choices ← parse_choices
      expecting Kind.arrow
      body ← stmts_until is_case_stop
      value (choices, body))
    closing Kind.kw_case
    value (some (Stmt.case_stmt label x (to_alts alts)))

  unfoldable pub parse_case_stmt : Bytes → Parse (Option Stmt)
  parse_case_stmt label = do expecting Kind.kw_case; case_rest label

  -- From the statements of a loop on.
  unfoldable pub loop_body :
      Bytes → Option Kind → Bytes → Option Expr → Option Expr → Parse (Option Stmt)
  loop_body label scheme param range cond = do
    body ← stmts_until is_end
    closing Kind.kw_loop
    value (some (Stmt.loop_stmt label scheme param range cond body))

  unfoldable pub loop_rest :
      Bytes → Option Kind → Bytes → Option Expr → Option Expr → Parse (Option Stmt)
  loop_rest label scheme param range cond = do
    expecting Kind.kw_loop
    loop_body label scheme param range cond

  unfoldable pub parse_loop_stmt : Bytes → Parse (Option Stmt)
  parse_loop_stmt label =
      when_at Kind.kw_for
        (do
          param ← identifier
          expecting Kind.kw_in
          r ← parse_discrete_range
          loop_rest label (some Kind.kw_for) param (some r) none)
        (when_at Kind.kw_while
          (do c ← parse_expr; loop_rest label (some Kind.kw_while) [] none (some c))
          (loop_rest label none [] none none))

  unfoldable pub parse_seq_of : Bytes → SeqClass → Parse (Option Stmt)
  parse_seq_of label null_class = do
    advancing
    expecting Kind.semicolon
    value (some (Stmt.null_stmt label))
  parse_seq_of label if_class = parse_if_stmt label
  parse_seq_of label case_class = parse_case_stmt label
  parse_seq_of label loop_class = parse_loop_stmt label
  parse_seq_of label next_class = parse_next_exit Kind.kw_next (Stmt.next_stmt label)
  parse_seq_of label exit_class = parse_next_exit Kind.kw_exit (Stmt.exit_stmt label)
  parse_seq_of label return_class = parse_return label
  parse_seq_of label wait_class = parse_wait_stmt label
  parse_seq_of label assert_class = parse_assert_stmt label
  parse_seq_of label report_class = parse_report_stmt label
  parse_seq_of label name_class = parse_assignment label

  unfoldable pub parse_seq : Parse (Option Stmt)
  parse_seq = do label ← parse_label; dispatch (λ k. parse_seq_of label (seq_class k))

-- One round of fuel for each statement inside another.
unfoldable pub parse_seq_from : ℕ → Parse (Option Stmt)
unfolding errorf
parse_seq_from zero s = (none, errorf out_of_fuel s)
parse_seq_from (suc fuel) s = parse_seq (parse_seq_from fuel) s

unfoldable pub parse_sequential_stmt : Parse (Option Stmt)
unfolding parse_seq_from
parse_sequential_stmt s = parse_seq_from (suc (left s)) s

-- `parseSeqStmtsUntil`.
abbrev pub seq_stmts_until : (Kind → Bool) → Parse Stmts
seq_stmts_until stop = stmts_until parse_sequential_stmt stop
