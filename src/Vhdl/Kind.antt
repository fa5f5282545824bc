-- ===== src/Vhdl/Kind.antt =====
-- tools/socgen/vhdl/token.go: the token kinds and their canonical texts. The sentinels kwStart and
-- kwEnd are not constructors: the kinds between them are those named kw_, and `keyword_kinds`
-- lists them in the order of the constants.
pub mod Code
use jcore_soc.Base.{Bytes, codes, Bool, true, false, List, [], ◌∷◌}

pub data Kind : Type 0 where
  illegal eof comment ident ext_ident int_lit real_lit based_lit char_lit string_lit : Kind
  bit_string_lit lparen rparen lbracket rbracket comma semicolon colon assign arrow less_eq : Kind
  greater_eq not_eq less greater equal plus minus star slash exp amp bar dot tick box : Kind
  kw_abs kw_access kw_after kw_alias kw_all kw_and kw_architecture kw_array kw_assert : Kind
  kw_attribute kw_begin kw_block kw_body kw_buffer kw_bus kw_case kw_component : Kind
  kw_configuration kw_constant kw_disconnect kw_downto kw_else kw_elsif kw_end kw_entity : Kind
  kw_exit kw_file kw_for kw_function kw_generate kw_generic kw_group kw_guarded kw_if : Kind
  kw_impure kw_in kw_inertial kw_inout kw_is kw_label kw_library kw_linkage kw_literal : Kind
  kw_loop kw_map kw_mod kw_nand kw_new kw_next kw_nor kw_not kw_null kw_of kw_on kw_open : Kind
  kw_or kw_others kw_out kw_package kw_port kw_postponed kw_procedure kw_process kw_pure : Kind
  kw_range kw_record kw_register kw_reject kw_rem kw_report kw_return kw_rol kw_ror kw_select : Kind
  kw_severity kw_shared kw_signal kw_sla kw_sll kw_sra kw_srl kw_subtype kw_then kw_to : Kind
  kw_transport kw_type kw_unaffected kw_units kw_until kw_use kw_variable kw_wait kw_when : Kind
  kw_while kw_with kw_xnor kw_xor : Kind

-- `kindStr`.
unfoldable pub kind_str : Kind → Bytes
kind_str illegal = codes "ILLEGAL"
kind_str eof = codes "EOF"
kind_str comment = codes "COMMENT"
kind_str ident = codes "IDENT"
kind_str ext_ident = codes "EXTIDENT"
kind_str int_lit = codes "INT"
kind_str real_lit = codes "REAL"
kind_str based_lit = codes "BASEDLIT"
kind_str char_lit = codes "CHARLIT"
kind_str string_lit = codes "STRINGLIT"
kind_str bit_string_lit = codes "BITSTRINGLIT"
kind_str lparen = codes "("
kind_str rparen = codes ")"
kind_str lbracket = codes "["
kind_str rbracket = codes "]"
kind_str comma = codes ","
kind_str semicolon = codes ";"
kind_str colon = codes ":"
kind_str assign = codes ":="
kind_str arrow = codes "=>"
kind_str less_eq = codes "<="
kind_str greater_eq = codes ">="
kind_str not_eq = codes "/="
kind_str less = codes "<"
kind_str greater = codes ">"
kind_str equal = codes "="
kind_str plus = codes "+"
kind_str minus = codes "-"
kind_str star = codes "*"
kind_str slash = codes "/"
kind_str exp = codes "**"
kind_str amp = codes "&"
kind_str bar = codes "|"
kind_str dot = codes "."
kind_str tick = codes "'"
kind_str box = codes "<>"
kind_str kw_abs = codes "abs"
kind_str kw_access = codes "access"
kind_str kw_after = codes "after"
kind_str kw_alias = codes "alias"
kind_str kw_all = codes "all"
kind_str kw_and = codes "and"
kind_str kw_architecture = codes "architecture"
kind_str kw_array = codes "array"
kind_str kw_assert = codes "assert"
kind_str kw_attribute = codes "attribute"
kind_str kw_begin = codes "begin"
kind_str kw_block = codes "block"
kind_str kw_body = codes "body"
kind_str kw_buffer = codes "buffer"
kind_str kw_bus = codes "bus"
kind_str kw_case = codes "case"
kind_str kw_component = codes "component"
kind_str kw_configuration = codes "configuration"
kind_str kw_constant = codes "constant"
kind_str kw_disconnect = codes "disconnect"
kind_str kw_downto = codes "downto"
kind_str kw_else = codes "else"
kind_str kw_elsif = codes "elsif"
kind_str kw_end = codes "end"
kind_str kw_entity = codes "entity"
kind_str kw_exit = codes "exit"
kind_str kw_file = codes "file"
kind_str kw_for = codes "for"
kind_str kw_function = codes "function"
kind_str kw_generate = codes "generate"
kind_str kw_generic = codes "generic"
kind_str kw_group = codes "group"
kind_str kw_guarded = codes "guarded"
kind_str kw_if = codes "if"
kind_str kw_impure = codes "impure"
kind_str kw_in = codes "in"
kind_str kw_inertial = codes "inertial"
kind_str kw_inout = codes "inout"
kind_str kw_is = codes "is"
kind_str kw_label = codes "label"
kind_str kw_library = codes "library"
kind_str kw_linkage = codes "linkage"
kind_str kw_literal = codes "literal"
kind_str kw_loop = codes "loop"
kind_str kw_map = codes "map"
kind_str kw_mod = codes "mod"
kind_str kw_nand = codes "nand"
kind_str kw_new = codes "new"
kind_str kw_next = codes "next"
kind_str kw_nor = codes "nor"
kind_str kw_not = codes "not"
kind_str kw_null = codes "null"
kind_str kw_of = codes "of"
kind_str kw_on = codes "on"
kind_str kw_open = codes "open"
kind_str kw_or = codes "or"
kind_str kw_others = codes "others"
kind_str kw_out = codes "out"
kind_str kw_package = codes "package"
kind_str kw_port = codes "port"
kind_str kw_postponed = codes "postponed"
kind_str kw_procedure = codes "procedure"
kind_str kw_process = codes "process"
kind_str kw_pure = codes "pure"
kind_str kw_range = codes "range"
kind_str kw_record = codes "record"
kind_str kw_register = codes "register"
kind_str kw_reject = codes "reject"
kind_str kw_rem = codes "rem"
kind_str kw_report = codes "report"
kind_str kw_return = codes "return"
kind_str kw_rol = codes "rol"
kind_str kw_ror = codes "ror"
kind_str kw_select = codes "select"
kind_str kw_severity = codes "severity"
kind_str kw_shared = codes "shared"
kind_str kw_signal = codes "signal"
kind_str kw_sla = codes "sla"
kind_str kw_sll = codes "sll"
kind_str kw_sra = codes "sra"
kind_str kw_srl = codes "srl"
kind_str kw_subtype = codes "subtype"
kind_str kw_then = codes "then"
kind_str kw_to = codes "to"
kind_str kw_transport = codes "transport"
kind_str kw_type = codes "type"
kind_str kw_unaffected = codes "unaffected"
kind_str kw_units = codes "units"
kind_str kw_until = codes "until"
kind_str kw_use = codes "use"
kind_str kw_variable = codes "variable"
kind_str kw_wait = codes "wait"
kind_str kw_when = codes "when"
kind_str kw_while = codes "while"
kind_str kw_with = codes "with"
kind_str kw_xnor = codes "xnor"
kind_str kw_xor = codes "xor"

-- The kinds strictly between kwStart and kwEnd.
abbrev pub keyword_kinds : List Kind
keyword_kinds =
    kw_abs ∷ kw_access ∷ kw_after ∷ kw_alias ∷ kw_all ∷ kw_and ∷ kw_architecture ∷ kw_array
    ∷ kw_assert ∷ kw_attribute ∷ kw_begin ∷ kw_block ∷ kw_body ∷ kw_buffer ∷ kw_bus ∷ kw_case
    ∷ kw_component ∷ kw_configuration ∷ kw_constant ∷ kw_disconnect ∷ kw_downto ∷ kw_else ∷ kw_elsif
    ∷ kw_end ∷ kw_entity ∷ kw_exit ∷ kw_file ∷ kw_for ∷ kw_function ∷ kw_generate ∷ kw_generic
    ∷ kw_group ∷ kw_guarded ∷ kw_if ∷ kw_impure ∷ kw_in ∷ kw_inertial ∷ kw_inout ∷ kw_is ∷ kw_label
    ∷ kw_library ∷ kw_linkage ∷ kw_literal ∷ kw_loop ∷ kw_map ∷ kw_mod ∷ kw_nand ∷ kw_new ∷ kw_next
    ∷ kw_nor ∷ kw_not ∷ kw_null ∷ kw_of ∷ kw_on ∷ kw_open ∷ kw_or ∷ kw_others ∷ kw_out ∷ kw_package
    ∷ kw_port ∷ kw_postponed ∷ kw_procedure ∷ kw_process ∷ kw_pure ∷ kw_range ∷ kw_record
    ∷ kw_register ∷ kw_reject ∷ kw_rem ∷ kw_report ∷ kw_return ∷ kw_rol ∷ kw_ror ∷ kw_select
    ∷ kw_severity ∷ kw_shared ∷ kw_signal ∷ kw_sla ∷ kw_sll ∷ kw_sra ∷ kw_srl ∷ kw_subtype ∷ kw_then
    ∷ kw_to ∷ kw_transport ∷ kw_type ∷ kw_unaffected ∷ kw_units ∷ kw_until ∷ kw_use ∷ kw_variable
    ∷ kw_wait ∷ kw_when ∷ kw_while ∷ kw_with ∷ kw_xnor ∷ kw_xor ∷ []

unfoldable pub is_keyword : Kind → Bool
is_keyword illegal = false
is_keyword eof = false
is_keyword comment = false
is_keyword ident = false
is_keyword ext_ident = false
is_keyword int_lit = false
is_keyword real_lit = false
is_keyword based_lit = false
is_keyword char_lit = false
is_keyword string_lit = false
is_keyword bit_string_lit = false
is_keyword lparen = false
is_keyword rparen = false
is_keyword lbracket = false
is_keyword rbracket = false
is_keyword comma = false
is_keyword semicolon = false
is_keyword colon = false
is_keyword assign = false
is_keyword arrow = false
is_keyword less_eq = false
is_keyword greater_eq = false
is_keyword not_eq = false
is_keyword less = false
is_keyword greater = false
is_keyword equal = false
is_keyword plus = false
is_keyword minus = false
is_keyword star = false
is_keyword slash = false
is_keyword exp = false
is_keyword amp = false
is_keyword bar = false
is_keyword dot = false
is_keyword tick = false
is_keyword box = false
is_keyword _ = true

abbrev pub is_eof : Kind → Bool
is_eof eof = true
is_eof _ = false

abbrev pub is_comment : Kind → Bool
is_comment comment = true
is_comment _ = false
