-- ===== src/Vhdl/Parser/Common.antt =====
-- tools/socgen/vhdl/parser.go: the phrases that declarations and statements share.
pub mod Moves
use jcore_soc.Base.{
  ℕ, zero, suc, Bool, true, false, ◌||◌, Option, none, some, List, [], ◌∷◌, ◌++◌, if◌then◌else◌,
  Bytes, codes,
}
use jcore_soc.Vhdl.Kind.{Kind, kind_str, is_keyword}
use jcore_soc.Vhdl.Kind.Code.{is_selector}
use jcore_soc.Vhdl.Source.{Token}
use jcore_soc.Vhdl.Ast.{Expr, Assocs, no_assoc}
use jcore_soc.Vhdl.Nodes.{InterfaceDecl, DelayMechanism, WaveformElem, BindingIndication, Signature}
use jcore_soc.Vhdl.Parser.{State, Parse, at, advance, expect, errorf, out_of_fuel, left}
use jcore_soc.Vhdl.Parser.Loop.{items, unless_closed}
use jcore_soc.Vhdl.Parser.Expr.{
  segment, parse_expr, parse_name, parse_paren_or_aggregate, parse_assoc_list,
}
use jcore_soc.Vhdl.Parser.Monad.{
  ◌>>=◌, ◌>>◌, value, current, at_kind, advancing, accepting, expecting, identifier, reporting,
  when_at, optional, comma_list,
}

-- IDENT and EXTIDENT.
unfoldable pub is_plain : Kind → Bool
is_plain Kind.ident = true
is_plain Kind.ext_ident = true
is_plain _ = false

-- The text behind a dot of `parseDottedName`.
unfoldable pub dotted_text : Token → Bytes
dotted_text t = if is_selector t.kind then segment t else kind_str t.kind

-- `dotLoop`. A dot that no name follows is consumed.
unfoldable pub dotted_from : ℕ → Bytes → Parse Bytes
unfolding errorf
dotted_from zero text s = (text, errorf out_of_fuel s)
dotted_from (suc fuel) text s =
    let s' = advance s in
    let on = dotted_from fuel (text ++ b'.' ∷ dotted_text s'.cur) (advance s') in
    if at Kind.dot s
    then if is_selector s'.cur.kind || is_keyword s'.cur.kind then on else (text, s')
    else (text, s)

unfoldable pub dotted_behind : Bytes → Parse Bytes
unfolding dotted_from
dotted_behind text s = dotted_from (suc (left s)) text s

unfoldable pub parse_dotted_name : Parse Bytes
parse_dotted_name = do
  t ← current
  if is_plain t.kind
      then (do advancing; dotted_behind t.lit)
      else if is_keyword t.kind
      then (do advancing; dotted_behind (kind_str t.kind))
      else (do reporting (codes "name"); value [])

unfoldable pub parse_name_list : Parse (List Bytes)
parse_name_list = comma_list identifier

-- `parseName` and `parseAssocList`, with the expressions in them.
abbrev pub name_phrase : Parse Expr
name_phrase = parse_name parse_expr

abbrev pub assoc_list : Parse Assocs
assoc_list = parse_assoc_list parse_expr

-- The constraint of a subtype.
unfoldable pub parse_constraint : Parse (Option Expr)
parse_constraint s =
    let (x, s') = parse_paren_or_aggregate parse_expr s in
    if at Kind.lparen s then (some x, s') else optional Kind.kw_range parse_expr s

unfoldable pub parse_subtype_indication : Parse (Bytes × Option Expr)
parse_subtype_indication = do
  mark ← parse_dotted_name
  constraint ← parse_constraint
  value (mark, constraint)

-- The words that are advanced over and kept as text.
unfoldable pub keyword_text : (Kind → Bool) → Parse Bytes
keyword_text p = do
  t ← current
  if p t.kind then (do advancing; value (kind_str t.kind)) else value []

unfoldable pub is_object_class : Kind → Bool
is_object_class Kind.kw_constant = true
is_object_class Kind.kw_signal = true
is_object_class Kind.kw_variable = true
is_object_class _ = false

unfoldable pub is_mode : Kind → Bool
is_mode Kind.kw_in = true
is_mode Kind.kw_out = true
is_mode Kind.kw_inout = true
is_mode Kind.kw_buffer = true
is_mode Kind.kw_linkage = true
is_mode _ = false

unfoldable pub parse_interface_decl : Parse InterfaceDecl
parse_interface_decl = do
  object ← keyword_text is_object_class
  names ← parse_name_list
  expecting Kind.colon
  mode ← keyword_text is_mode
  subtype ← parse_subtype_indication
  default ← optional Kind.assign parse_expr
  value record {
    obj_class = object;
    names = names;
    mode = mode;
    subtype_mark = subtype.0;
    constraint = subtype.1;
    default = default;
  }

unfoldable pub parse_interface_list : Parse (List InterfaceDecl)
parse_interface_list = do
  expecting Kind.lparen
  decls ← unless_closed (items Kind.semicolon (at Kind.rparen) parse_interface_decl)
  expecting Kind.rparen
  value decls

-- `if p.at(GENERIC) { ... }` and `if p.at(PORT) { ... }` of an entity and a component.
unfoldable pub interface_part : Kind → Parse (List InterfaceDecl)
interface_part k =
    when_at k (do decls ← parse_interface_list; expecting Kind.semicolon; value decls) (value [])

unfoldable pub parse_choices : Parse (List Expr)
parse_choices = items Kind.bar (λ _. false) parse_expr

unfoldable pub parse_waveform_elem : Parse WaveformElem
parse_waveform_elem = do
  v ← parse_expr
  after ← optional Kind.kw_after parse_expr
  value record { value = v; after = after }

unfoldable pub parse_waveform : Parse (List WaveformElem)
parse_waveform = comma_list parse_waveform_elem

unfoldable pub parse_delay_mechanism : Parse (Option DelayMechanism)
parse_delay_mechanism =
    when_at Kind.kw_transport (value (some (record { transport = true; reject = none }))) (
      when_at Kind.kw_reject
        (do
          r ← parse_expr
          expecting Kind.kw_inertial
          value (some (record { transport = false; reject = some r })))
        (when_at Kind.kw_inertial (value (some (record { transport = false; reject = none })))
          (value none)))

unfoldable pub parse_use_clause : Parse (List Bytes)
parse_use_clause = do
  expecting Kind.kw_use
  names ← comma_list parse_dotted_name
  expecting Kind.semicolon
  value names

-- The optional generic and port maps.
unfoldable pub map_part : Kind → Parse Assocs
map_part k = when_at k (do expecting Kind.kw_map; assoc_list) (value no_assoc)

-- `if p.at(LPAREN) { ... }`, an architecture's name.
unfoldable pub arch_part : Parse Bytes
arch_part = when_at Kind.lparen (do a ← identifier; expecting Kind.rparen; value a) (value [])

-- The `switch` of `parseBindingIndication`: UnitKind, Unit and Arch.
unfoldable pub binding_unit : Parse (Option Kind × Bytes × Bytes)
binding_unit =
    when_at Kind.kw_entity
      (do u ← parse_dotted_name; a ← arch_part; value (some Kind.kw_entity, u, a))
      (when_at Kind.kw_configuration
        (do u ← parse_dotted_name; value (some Kind.kw_configuration, u, []))
        (when_at Kind.kw_open (value (some Kind.kw_open, [], []))
          (do reporting (codes "binding"); value (none, [], []))))

unfoldable pub parse_binding_indication : Parse BindingIndication
parse_binding_indication = do
  expecting Kind.kw_use
  unit ← binding_unit
  generics ← map_part Kind.kw_generic
  ports ← map_part Kind.kw_port
  expecting Kind.semicolon
  value record {
    unit_kind = unit.0;
    unit = unit.1;
    arch = unit.2;
    generic_map = generics;
    port_map = ports;
  }

unfoldable pub is_all_others : Kind → Bool
is_all_others Kind.kw_all = true
is_all_others Kind.kw_others = true
is_all_others _ = false

-- `parseConfigSpecName` and `parseEntityName`: they differ in the message only.
unfoldable pub name_or_all : Bytes → Parse Bytes
name_or_all place = do
  t ← current
  ident ← at_kind Kind.ident
  if ident
      then (do advancing; value t.lit)
      else if is_all_others t.kind
      then (do advancing; value (kind_str t.kind))
      else (do reporting place; advancing; value [])

unfoldable pub parse_signature : Parse Signature
parse_signature = do
  expecting Kind.lbracket
  returns ← at_kind Kind.kw_return
  closes ← at_kind Kind.rbracket
  types ← if returns || closes then value [] else comma_list parse_dotted_name
  return ← when_at Kind.kw_return parse_dotted_name (value [])
  expecting Kind.rbracket
  value record { types = types; return = return }

unfoldable pub parse_enum_lit : Parse Bytes
parse_enum_lit = do
  t ← current
  ident ← at_kind Kind.ident
  char ← at_kind Kind.char_lit
  if ident || char
      then (do advancing; value t.lit)
      else (do reporting (codes "enum literal"); advancing; value [])

unfoldable pub parse_entity_class_entry : Parse Bytes
parse_entity_class_entry = do
  t ← advancing
  box ← accepting Kind.box
  value (if box then kind_str t.kind ++ codes " <>" else kind_str t.kind)
