-- ===== src/Vhdl/Parser/Sequential/Moves.antt =====
-- tools/socgen/vhdl/parser.go: sequential statements only advance and report, and the fuel of the
-- model is enough for them.
use jcore_soc.Base.{
  ℕ, zero, suc, ◌≤◌, ◌<◌, ◌≡◌, refl, ap, Bool, true, false, ◌||◌, Option, none, some, [], arith,
  Bytes,
}
use jcore_soc.Vhdl.Kind.{Kind}
use jcore_soc.Vhdl.Kind.Code.{same_kind, kind_code}
use jcore_soc.Vhdl.Ast.{Expr}
use jcore_soc.Vhdl.Nodes.{Stmt}
use jcore_soc.Vhdl.Parser.{State, Parse, at, left}
use jcore_soc.Vhdl.Parser.Steps.{Steps, IsEnded}
use jcore_soc.Vhdl.Parser.Loop.Moves.{Moves}
use jcore_soc.Vhdl.Parser.Expr.{parse_discrete_range}
use jcore_soc.Vhdl.Parser.Expr.Total.{parse_discrete_range-Steps}
use jcore_soc.Vhdl.Parser.Expr.{parse_expr}
use jcore_soc.Vhdl.Parser.Monad.{◌>>=◌, ◌>>◌, identifier, expecting, parse_label}
use jcore_soc.Vhdl.Parser.Monad.Moves.{
  moves, bind-Moves, when_at_consumes, guarded-Moves, while_at-Moves, optional_name-Moves,
  closing-Moves, parse_label-Moves, dispatch-Moves, expecting_consumes,
}
use jcore_soc.Vhdl.Parser.Common.Moves.{
  name_phrase-Moves, comma_list-Moves, parse_choices-Moves, parse_waveform-Moves,
  parse_delay_mechanism-Moves,
}
use jcore_soc.Vhdl.Parser.Sequential.{
  SeqClass, null_class, if_class, case_class, loop_class, next_class, exit_class, return_class,
  wait_class, assert_class, report_class, name_class, seq_class, parse_next_exit, parse_return,
  parse_wait_stmt, parse_assert_stmt, parse_report_stmt, deferred, parse_call, parse_assignment,
  stmts_until, if_rest, parse_if_stmt, case_rest, parse_case_stmt, loop_body, loop_rest,
  parse_loop_stmt, parse_seq_of, parse_seq, parse_seq_from, parse_sequential_stmt, seq_stmts_until,
}

pub parse_discrete_range-Moves : {n : ℕ} → Moves n parse_discrete_range
parse_discrete_range-Moves s h lt = parse_discrete_range-Steps s h

parse_next_exit-Moves :
    {n : ℕ} (k : Kind) (node : Bytes → Option Expr → Stmt) → Moves n (parse_next_exit k node)
unfolding parse_next_exit
parse_next_exit-Moves k node = search (moves, optional_name-Moves) depth 16

parse_return-Moves : {n : ℕ} (label : Bytes) → Moves n (parse_return label)
unfolding parse_return
parse_return-Moves label = search moves depth 16

parse_wait_stmt-Moves : {n : ℕ} (label : Bytes) → Moves n (parse_wait_stmt label)
unfolding parse_wait_stmt
parse_wait_stmt-Moves label = search (moves, comma_list-Moves, name_phrase-Moves) depth 16

pub parse_assert_stmt-Moves : {n : ℕ} (label : Bytes) → Moves n (parse_assert_stmt label)
unfolding parse_assert_stmt
parse_assert_stmt-Moves label = search moves depth 16

parse_report_stmt-Moves : {n : ℕ} (label : Bytes) → Moves n (parse_report_stmt label)
unfolding parse_report_stmt
parse_report_stmt-Moves label = search moves depth 16

pub deferred-Moves : {n : ℕ} (place : Bytes) → Moves n (deferred place)
unfolding deferred
deferred-Moves place = search moves

parse_call-Moves : {n : ℕ} (label : Bytes) (target : Expr) → Moves n (parse_call label target)
unfolding parse_call
parse_call-Moves label (Expr.call_expr f args) = search moves
parse_call-Moves label (Expr.ident name) = search (moves, deferred-Moves)
parse_call-Moves label _ = search deferred-Moves

parse_assignment-Moves : {n : ℕ} (label : Bytes) → Moves n (parse_assignment label)
unfolding parse_assignment
parse_assignment-Moves label =
    search
      (
        moves, name_phrase-Moves, parse_delay_mechanism-Moves, parse_waveform-Moves,
        parse_call-Moves,
      )
      depth 16

if_token : (k : Kind) → seq_class k ≡ if_class → same_kind k Kind.kw_if ≡ true
unfolding seq_class same_kind kind_code
if_token Kind.kw_if h = refl
if_token _ h = cc

case_token : (k : Kind) → seq_class k ≡ case_class → same_kind k Kind.kw_case ≡ true
unfolding seq_class same_kind kind_code
case_token Kind.kw_case h = refl
case_token _ h = cc

loop_token :
    (k : Kind)
    → seq_class k ≡ loop_class
    → (same_kind k Kind.kw_for || same_kind k Kind.kw_while || same_kind k Kind.kw_loop) ≡ true
unfolding seq_class same_kind kind_code
loop_token Kind.kw_for h = refl
loop_token Kind.kw_while h = refl
loop_token Kind.kw_loop h = refl
loop_token _ h = cc

last_of : (a b c : Bool) → (a || b || c) ≡ true → a ≡ false → b ≡ false → c ≡ true
last_of a b c h p q = ground arith

module _ (n : ℕ) (self : Parse (Option Stmt)) (self-Moves : Moves n self) where
  stmts_until-Moves : (stop : Kind → Bool) → Moves n (stmts_until self stop)
  unfolding stmts_until
  stmts_until-Moves stop = search (moves, guarded-Moves, self-Moves)

  if_rest-Moves : (label : Bytes) → Moves n (if_rest self label)
  unfolding if_rest
  if_rest-Moves label = search (moves, stmts_until-Moves, while_at-Moves, closing-Moves) depth 24

  case_rest-Moves : (label : Bytes) → Moves n (case_rest self label)
  unfolding case_rest
  case_rest-Moves label =
      search (moves, parse_choices-Moves, stmts_until-Moves, while_at-Moves, closing-Moves) depth 24

  loop_body-Moves :
      (label : Bytes) (scheme : Option Kind) (param : Bytes) (range cond : Option Expr)
      → Moves n (loop_body self label scheme param range cond)
  unfolding loop_body
  loop_body-Moves label scheme param range cond =
      search (moves, stmts_until-Moves, closing-Moves) depth 16

  loop_rest-Moves :
      (label : Bytes) (scheme : Option Kind) (param : Bytes) (range cond : Option Expr)
      → Moves n (loop_rest self label scheme param range cond)
  unfolding loop_rest
  loop_rest-Moves label scheme param range cond = search (moves, loop_body-Moves)

  for_loop-Moves :
      (label : Bytes)
      → Moves n (do
        param ← identifier
        expecting Kind.kw_in
        r ← parse_discrete_range
        loop_rest self label (some Kind.kw_for) param (some r) none)
  for_loop-Moves label = search (moves, parse_discrete_range-Moves, loop_rest-Moves) depth 16

  while_loop-Moves :
      (label : Bytes)
      → Moves n (do c ← parse_expr; loop_rest self label (some Kind.kw_while) [] none (some c))
  while_loop-Moves label = search (moves, loop_rest-Moves) depth 16

  -- One of the three words of a loop stands first, and is consumed before the statements.
  parse_loop_stmt-Steps :
      (label : Bytes) (s : State)
      → seq_class s.cur.kind ≡ loop_class
      → IsEnded s
      → left s ≤ n
      → Steps s (parse_loop_stmt self label s).1
  unfolding parse_loop_stmt loop_rest at
  parse_loop_stmt-Steps label s c h le =
      when_at_consumes Kind.kw_for _ _ s h le refl (for_loop-Moves label) (λ no_for.
        when_at_consumes Kind.kw_while _ _ s h le refl (while_loop-Moves label) (λ no_while.
          expecting_consumes Kind.kw_loop (λ _. loop_body self label none [] none none) s h le
            (last_of _ _ _ (loop_token s.cur.kind c) no_for no_while) refl
            (λ _. loop_body-Moves label none [] none none)))

  parse_seq_of-Steps :
      (label : Bytes) (c : SeqClass) (s : State)
      → seq_class s.cur.kind ≡ c
      → IsEnded s
      → left s < suc n
      → Steps s (parse_seq_of self label c s).1
  unfolding parse_seq_of parse_if_stmt parse_case_stmt at
  parse_seq_of-Steps label null_class s e h lt = null s h lt
    where
      null : Moves (suc n) (parse_seq_of self label null_class)
      null = search moves depth 16
  parse_seq_of-Steps label if_class s e h lt =
      expecting_consumes Kind.kw_if (λ _. if_rest self label) s h (omega arith)
        (if_token s.cur.kind e) refl (λ _. if_rest-Moves label)
  parse_seq_of-Steps label case_class s e h lt =
      expecting_consumes Kind.kw_case (λ _. case_rest self label) s h (omega arith)
        (case_token s.cur.kind e) refl (λ _. case_rest-Moves label)
  parse_seq_of-Steps label loop_class s e h lt = parse_loop_stmt-Steps label s e h (omega arith)
  parse_seq_of-Steps label next_class s e h lt = parse_next_exit-Moves Kind.kw_next _ s h lt
  parse_seq_of-Steps label exit_class s e h lt = parse_next_exit-Moves Kind.kw_exit _ s h lt
  parse_seq_of-Steps label return_class s e h lt = parse_return-Moves label s h lt
  parse_seq_of-Steps label wait_class s e h lt = parse_wait_stmt-Moves label s h lt
  parse_seq_of-Steps label assert_class s e h lt = parse_assert_stmt-Moves label s h lt
  parse_seq_of-Steps label report_class s e h lt = parse_report_stmt-Moves label s h lt
  parse_seq_of-Steps label name_class s e h lt = parse_assignment-Moves label s h lt

  parse_seq-Moves : Moves (suc n) (parse_seq self)
  unfolding parse_seq
  parse_seq-Moves = bind-Moves parse_label _ parse_label-Moves (λ label.
      dispatch-Moves (λ k. parse_seq_of self label (seq_class k))
        (λ k s e h lt. parse_seq_of-Steps label (seq_class k) s (ap seq_class e) h lt))

parse_seq_from-Moves : (n : ℕ) → Moves n (parse_seq_from n)
unfolding parse_seq_from
parse_seq_from-Moves zero s h lt = elim lt [ ]
parse_seq_from-Moves (suc n) s h lt =
    parse_seq-Moves n (parse_seq_from n) (parse_seq_from-Moves n) s h lt

pub parse_sequential_stmt-Moves : {n : ℕ} → Moves n parse_sequential_stmt
unfolding parse_sequential_stmt
parse_sequential_stmt-Moves s h lt = parse_seq_from-Moves (suc (left s)) s h (omega arith)

pub seq_stmts_until-Moves : {n : ℕ} (stop : Kind → Bool) → Moves n (seq_stmts_until stop)
seq_stmts_until-Moves {n} stop =
    stmts_until-Moves n parse_sequential_stmt parse_sequential_stmt-Moves stop
