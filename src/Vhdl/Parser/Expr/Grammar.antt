-- ===== src/Vhdl/Parser/Expr/Grammar.antt =====
-- The grammar of VHDL-93 expressions, LRM chapters 6 and 7, with the liberties that
-- tools/socgen/vhdl/parser.go takes: chains of relational and shift operators, empty argument lists
-- and the keywords that count as primaries. An allocator is left out: the parser takes the whole
-- expression behind `new` for its operand. A phrase is its first token and those behind it, in
-- the order of the text, beside the node that it stands for.
use jcore_soc.Base.{ℕ, ◌<◌, ◌≡◌, Bool, true, false, List, [], ◌∷◌, ◌++◌, Bytes}
use jcore_soc.Vhdl.Kind.{Kind, kind_str}
use jcore_soc.Vhdl.Kind.Code.{
  PrimaryClass, primary_class, tier, is_sign, is_abs_not, is_direction, is_selector,
}
use jcore_soc.Vhdl.Source.{Token}
use jcore_soc.Vhdl.Ast.{Expr}
use jcore_soc.Vhdl.Parser.Expr.{segment, is_attr_name, to_elems, to_assocs, expr_string}

-- The levels between an expression and a factor, loosest first.
pub data Level : Type 0 where
  logical relation shift simple term factor : Level

unfoldable pub tighter : Level → Level
tighter logical = relation
tighter relation = shift
tighter shift = simple
tighter simple = term
tighter term = factor
tighter factor = factor

-- The tier of a level's operators; a factor has none.
unfoldable pub level_tier : Level → ℕ
level_tier logical = 1
level_tier relation = 2
level_tier shift = 3
level_tier simple = 4
level_tier term = 5
level_tier factor = 6

-- An aggregate is not one positional element.
unfoldable pub is_aggregate : List (List Expr × Expr) → Bool
is_aggregate (([], x) ∷ []) = false
is_aggregate _ = true

-- Selected names and attributes of a simple name, which are kept in its text.
pub data Dots : Bytes → List Token → Bytes → Type 0 where
  done : {text : Bytes} → Dots text [] text
  more :
      {text out : Bytes} {ts : List Token} (d u : Token)
      → d.kind ≡ Kind.dot
      → is_selector u.kind ≡ true
      → Dots (text ++ b'.' ∷ segment u) ts out
      → Dots text (d ∷ u ∷ ts) out

pub data Ticks : Bytes → List Token → Bytes → Type 0 where
  done : {text : Bytes} → Ticks text [] text
  more :
      {text out : Bytes} {ts : List Token} (q a : Token)
      → q.kind ≡ Kind.tick
      → is_attr_name a.kind ≡ true
      → Ticks (text ++ b'\'' ∷ segment a) ts out
      → Ticks text (q ∷ a ∷ ts) out

mutual
  pub data Expression : Token → List Token → Expr → Type 0 where
    plain : {t : Token} {ts : List Token} {e : Expr} → Tier logical t ts e → Expression t ts e
    range :
        {t u : Token} {ts us : List Token} {l r : Expr} (d : Token)
        → Tier logical t ts l
        → is_direction d.kind ≡ true
        → Tier logical u us r
        → Expression t (ts ++ d ∷ u ∷ us) (Expr.range_expr l d.kind r)

  -- An operand and the operators behind it; a simple expression may have a sign first.
  pub data Tier : Level → Token → List Token → Expr → Type 0 where
    chain :
        {t : Token} {ts us : List Token} {x e : Expr} (l : Level)
        → level_tier l < 6
        → Tier (tighter l) t ts x
        → Chain l x us e
        → Tier l t (ts ++ us) e
    signed :
        {t u : Token} {ts us : List Token} {x e : Expr}
        → is_sign t.kind ≡ true
        → Tier term u ts x
        → Chain simple (Expr.unary_expr t.kind x) us e
        → Tier simple t (u ∷ ts ++ us) e
    primary : {t : Token} {ts : List Token} {e : Expr} → Primary t ts e → Tier factor t ts e
    unary :
        {t u : Token} {ts : List Token} {e : Expr}
        → is_abs_not t.kind ≡ true
        → Primary u ts e
        → Tier factor t (u ∷ ts) (Expr.unary_expr t.kind e)
    power :
        {t u : Token} {ts us : List Token} {x y : Expr} (op : Token)
        → Primary t ts x
        → op.kind ≡ Kind.exp
        → Primary u us y
        → Tier factor t (ts ++ op ∷ u ∷ us) (Expr.binary_expr x op.kind y)

  -- Operators of one level and their operands, from the left, behind the expression `x`.
  pub data Chain : Level → Expr → List Token → Expr → Type 0 where
    end_chain : {l : Level} {x : Expr} → Chain l x [] x
    operator :
        {l : Level} {x y e : Expr} {t : Token} {ts us : List Token} (op : Token)
        → tier op.kind ≡ level_tier l
        → Tier (tighter l) t ts y
        → Chain l (Expr.binary_expr x op.kind y) us e
        → Chain l x (op ∷ t ∷ ts ++ us) e

  pub data Primary : Token → List Token → Expr → Type 0 where
    number :
        {t : Token}
        → primary_class t.kind ≡ PrimaryClass.number
        → Primary t [] (Expr.basic_lit t.kind t.lit)
    physical :
        {t u : Token}
        → primary_class t.kind ≡ PrimaryClass.number
        → u.kind ≡ Kind.ident
        → Primary t (u ∷ []) (Expr.physical_lit t.lit u.lit)
    text :
        {t : Token}
        → primary_class t.kind ≡ PrimaryClass.text_literal
        → Primary t [] (Expr.basic_lit t.kind t.lit)
    keyword :
        {t : Token}
        → primary_class t.kind ≡ PrimaryClass.keyword
        → Primary t [] (Expr.ident (kind_str t.kind))
    parens : {t : Token} {ts : List Token} {e : Expr} → Parens t ts e → Primary t ts e
    name :
        {t : Token} {ts us vs : List Token} {dotted text : Bytes} {e : Expr}
        → primary_class t.kind ≡ PrimaryClass.name
        → Dots t.lit ts dotted
        → Ticks dotted us text
        → Call (Expr.ident text) vs e
        → Primary t (ts ++ us ++ vs) e
    qualified :
        {t o : Token} {ts us vs : List Token} {dotted text : Bytes} {e : Expr} (q : Token)
        → primary_class t.kind ≡ PrimaryClass.name
        → Dots t.lit ts dotted
        → Ticks dotted us text
        → q.kind ≡ Kind.tick
        → Parens o vs e
        → Primary t (ts ++ us ++ q ∷ o ∷ vs) (Expr.qualified_expr (Expr.ident text) e)

  pub data Parens : Token → List Token → Expr → Type 0 where
    paren :
        {o t : Token} {ts : List Token} {e : Expr} (c : Token)
        → o.kind ≡ Kind.lparen
        → Expression t ts e
        → c.kind ≡ Kind.rparen
        → Parens o (t ∷ ts ++ c ∷ []) (Expr.paren_expr e)
    aggregate :
        {o t : Token} {ts : List Token} {es : List (List Expr × Expr)}
        → o.kind ≡ Kind.lparen
        → Elements t ts es
        → is_aggregate es ≡ true
        → Parens o (t ∷ ts) (Expr.aggregate (to_elems es))

  -- The elements of an aggregate up to its closing parenthesis.
  pub data Elements : Token → List Token → List (List Expr × Expr) → Type 0 where
    elements :
        {t : Token} {ts us : List Token} {x : List Expr × Expr} {xs : List (List Expr × Expr)}
        → Element t ts x
        → MoreElements us xs
        → Elements t (ts ++ us) (x ∷ xs)

  pub data MoreElements : List Token → List (List Expr × Expr) → Type 0 where
    close : {c : Token} → c.kind ≡ Kind.rparen → MoreElements (c ∷ []) []
    element :
        {o t : Token} {ts us : List Token} {x : List Expr × Expr} {xs : List (List Expr × Expr)}
        → o.kind ≡ Kind.comma
        → Element t ts x
        → MoreElements us xs
        → MoreElements (o ∷ t ∷ ts ++ us) (x ∷ xs)

  pub data Element : Token → List Token → List Expr × Expr → Type 0 where
    positional : {t : Token} {ts : List Token} {e : Expr} → Expression t ts e → Element t ts ([], e)
    named :
        {t u : Token} {ts us vs : List Token} {c x : Expr} {cs : List Expr}
        → Expression t ts c
        → Choices us cs
        → Expression u vs x
        → Element t (ts ++ us ++ u ∷ vs) (c ∷ cs, x)

  -- The further choices, up to the arrow.
  pub data Choices : List Token → List Expr → Type 0 where
    arrow : {a : Token} → a.kind ≡ Kind.arrow → Choices (a ∷ []) []
    choice :
        {b t : Token} {ts us : List Token} {c : Expr} {cs : List Expr}
        → b.kind ≡ Kind.bar
        → Expression t ts c
        → Choices us cs
        → Choices (b ∷ t ∷ ts ++ us) (c ∷ cs)

  -- A name goes on only with a call, and a call with calls, selections and attributes.
  pub data Call : Expr → List Token → Expr → Type 0 where
    no_call : {e : Expr} → Call e [] e
    call :
        {o : Token} {ts us : List Token} {e x : Expr} {actuals : List (Bytes × Expr)}
        → o.kind ≡ Kind.lparen
        → Args ts actuals
        → Suffixes (Expr.call_expr e (to_assocs actuals)) us x
        → Call e (o ∷ ts ++ us) x

  pub data Suffixes : Expr → List Token → Expr → Type 0 where
    calls : {ts : List Token} {e x : Expr} → Call e ts x → Suffixes e ts x
    select :
        {d u : Token} {ts : List Token} {e x : Expr}
        → d.kind ≡ Kind.dot
        → is_selector u.kind ≡ true
        → Suffixes (Expr.selector_expr e (segment u)) ts x
        → Suffixes e (d ∷ u ∷ ts) x
    attribute :
        {q a : Token} {ts : List Token} {e x : Expr}
        → q.kind ≡ Kind.tick
        → is_attr_name a.kind ≡ true
        → Suffixes (Expr.attribute_name e (segment a)) ts x
        → Suffixes e (q ∷ a ∷ ts) x

  -- Arguments up to the closing parenthesis.
  pub data Args : List Token → List (Bytes × Expr) → Type 0 where
    empty : {c : Token} → c.kind ≡ Kind.rparen → Args (c ∷ []) []
    args :
        {t : Token} {ts us : List Token} {x : Bytes × Expr} {xs : List (Bytes × Expr)}
        → Argument t ts x
        → MoreArgs us xs
        → Args (t ∷ ts ++ us) (x ∷ xs)

  pub data MoreArgs : List Token → List (Bytes × Expr) → Type 0 where
    close_args : {c : Token} → c.kind ≡ Kind.rparen → MoreArgs (c ∷ []) []
    argument :
        {o t : Token} {ts us : List Token} {x : Bytes × Expr} {xs : List (Bytes × Expr)}
        → o.kind ≡ Kind.comma
        → Argument t ts x
        → MoreArgs us xs
        → MoreArgs (o ∷ t ∷ ts ++ us) (x ∷ xs)

  pub data Argument : Token → List Token → Bytes × Expr → Type 0 where
    actual : {t : Token} {ts : List Token} {e : Expr} → Expression t ts e → Argument t ts ([], e)
    formal :
        {t u : Token} {ts us : List Token} {f x : Expr} (a : Token)
        → Expression t ts f
        → a.kind ≡ Kind.arrow
        → Expression u us x
        → Argument t (ts ++ a ∷ u ∷ us) (expr_string f, x)
