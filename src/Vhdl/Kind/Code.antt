-- ===== src/Vhdl/Kind/Code.antt =====
-- tools/socgen/vhdl/token.go: the numbers of the constants, and the classes of kinds by which the
-- expression parser of tools/socgen/vhdl/parser.go branches.
use jcore_soc.Base.{ℕ, ◌==◌, Bool, true, false}
use jcore_soc.Vhdl.Kind.{Kind}

-- `Kind` is an int: the sentinel kwStart has the number between box and kw_abs.
unfoldable pub kind_code : Kind → ℕ
kind_code Kind.illegal = 0
kind_code Kind.eof = 1
kind_code Kind.comment = 2
kind_code Kind.ident = 3
kind_code Kind.ext_ident = 4
kind_code Kind.int_lit = 5
kind_code Kind.real_lit = 6
kind_code Kind.based_lit = 7
kind_code Kind.char_lit = 8
kind_code Kind.string_lit = 9
kind_code Kind.bit_string_lit = 10
kind_code Kind.lparen = 11
kind_code Kind.rparen = 12
kind_code Kind.lbracket = 13
kind_code Kind.rbracket = 14
kind_code Kind.comma = 15
kind_code Kind.semicolon = 16
kind_code Kind.colon = 17
kind_code Kind.assign = 18
kind_code Kind.arrow = 19
kind_code Kind.less_eq = 20
kind_code Kind.greater_eq = 21
kind_code Kind.not_eq = 22
kind_code Kind.less = 23
kind_code Kind.greater = 24
kind_code Kind.equal = 25
kind_code Kind.plus = 26
kind_code Kind.minus = 27
kind_code Kind.star = 28
kind_code Kind.slash = 29
kind_code Kind.exp = 30
kind_code Kind.amp = 31
kind_code Kind.bar = 32
kind_code Kind.dot = 33
kind_code Kind.tick = 34
kind_code Kind.box = 35
kind_code Kind.kw_abs = 37
kind_code Kind.kw_access = 38
kind_code Kind.kw_after = 39
kind_code Kind.kw_alias = 40
kind_code Kind.kw_all = 41
kind_code Kind.kw_and = 42
kind_code Kind.kw_architecture = 43
kind_code Kind.kw_array = 44
kind_code Kind.kw_assert = 45
kind_code Kind.kw_attribute = 46
kind_code Kind.kw_begin = 47
kind_code Kind.kw_block = 48
kind_code Kind.kw_body = 49
kind_code Kind.kw_buffer = 50
kind_code Kind.kw_bus = 51
kind_code Kind.kw_case = 52
kind_code Kind.kw_component = 53
kind_code Kind.kw_configuration = 54
kind_code Kind.kw_constant = 55
kind_code Kind.kw_disconnect = 56
kind_code Kind.kw_downto = 57
kind_code Kind.kw_else = 58
kind_code Kind.kw_elsif = 59
kind_code Kind.kw_end = 60
kind_code Kind.kw_entity = 61
kind_code Kind.kw_exit = 62
kind_code Kind.kw_file = 63
kind_code Kind.kw_for = 64
kind_code Kind.kw_function = 65
kind_code Kind.kw_generate = 66
kind_code Kind.kw_generic = 67
kind_code Kind.kw_group = 68
kind_code Kind.kw_guarded = 69
kind_code Kind.kw_if = 70
kind_code Kind.kw_impure = 71
kind_code Kind.kw_in = 72
kind_code Kind.kw_inertial = 73
kind_code Kind.kw_inout = 74
kind_code Kind.kw_is = 75
kind_code Kind.kw_label = 76
kind_code Kind.kw_library = 77
kind_code Kind.kw_linkage = 78
kind_code Kind.kw_literal = 79
kind_code Kind.kw_loop = 80
kind_code Kind.kw_map = 81
kind_code Kind.kw_mod = 82
kind_code Kind.kw_nand = 83
kind_code Kind.kw_new = 84
kind_code Kind.kw_next = 85
kind_code Kind.kw_nor = 86
kind_code Kind.kw_not = 87
kind_code Kind.kw_null = 88
kind_code Kind.kw_of = 89
kind_code Kind.kw_on = 90
kind_code Kind.kw_open = 91
kind_code Kind.kw_or = 92
kind_code Kind.kw_others = 93
kind_code Kind.kw_out = 94
kind_code Kind.kw_package = 95
kind_code Kind.kw_port = 96
kind_code Kind.kw_postponed = 97
kind_code Kind.kw_procedure = 98
kind_code Kind.kw_process = 99
kind_code Kind.kw_pure = 100
kind_code Kind.kw_range = 101
kind_code Kind.kw_record = 102
kind_code Kind.kw_register = 103
kind_code Kind.kw_reject = 104
kind_code Kind.kw_rem = 105
kind_code Kind.kw_report = 106
kind_code Kind.kw_return = 107
kind_code Kind.kw_rol = 108
kind_code Kind.kw_ror = 109
kind_code Kind.kw_select = 110
kind_code Kind.kw_severity = 111
kind_code Kind.kw_shared = 112
kind_code Kind.kw_signal = 113
kind_code Kind.kw_sla = 114
kind_code Kind.kw_sll = 115
kind_code Kind.kw_sra = 116
kind_code Kind.kw_srl = 117
kind_code Kind.kw_subtype = 118
kind_code Kind.kw_then = 119
kind_code Kind.kw_to = 120
kind_code Kind.kw_transport = 121
kind_code Kind.kw_type = 122
kind_code Kind.kw_unaffected = 123
kind_code Kind.kw_units = 124
kind_code Kind.kw_until = 125
kind_code Kind.kw_use = 126
kind_code Kind.kw_variable = 127
kind_code Kind.kw_wait = 128
kind_code Kind.kw_when = 129
kind_code Kind.kw_while = 130
kind_code Kind.kw_with = 131
kind_code Kind.kw_xnor = 132
kind_code Kind.kw_xor = 133

-- The test `a == b` of two kinds.
unfoldable pub same_kind : Kind → Kind → Bool
unfolding kind_code
same_kind a b = kind_code a == kind_code b

-- The labels of the `switch` in `parsePrimary`, and its default.
pub data PrimaryClass : Type 0 where
  number text_literal open_paren name allocator keyword other : PrimaryClass

unfoldable pub primary_class : Kind → PrimaryClass
primary_class Kind.int_lit = number
primary_class Kind.real_lit = number
primary_class Kind.based_lit = number
primary_class Kind.char_lit = text_literal
primary_class Kind.string_lit = text_literal
primary_class Kind.bit_string_lit = text_literal
primary_class Kind.lparen = open_paren
primary_class Kind.ident = name
primary_class Kind.ext_ident = name
primary_class Kind.kw_new = allocator
primary_class Kind.kw_others = keyword
primary_class Kind.kw_all = keyword
primary_class Kind.kw_range = keyword
primary_class Kind.kw_null = keyword
primary_class Kind.kw_open = keyword
primary_class _ = other

-- The tiers of the binary operators: logical 1, relational 2, shift 3, adding 4, multiplying 5; 0 for
-- a kind that is none of these. A tier's operators are the labels of the `switch` in its function.
unfoldable pub tier : Kind → ℕ
tier Kind.kw_and = 1
tier Kind.kw_or = 1
tier Kind.kw_nand = 1
tier Kind.kw_nor = 1
tier Kind.kw_xor = 1
tier Kind.kw_xnor = 1
tier Kind.equal = 2
tier Kind.not_eq = 2
tier Kind.less = 2
tier Kind.less_eq = 2
tier Kind.greater = 2
tier Kind.greater_eq = 2
tier Kind.kw_sll = 3
tier Kind.kw_srl = 3
tier Kind.kw_sla = 3
tier Kind.kw_sra = 3
tier Kind.kw_rol = 3
tier Kind.kw_ror = 3
tier Kind.plus = 4
tier Kind.minus = 4
tier Kind.amp = 4
tier Kind.star = 5
tier Kind.slash = 5
tier Kind.kw_mod = 5
tier Kind.kw_rem = 5
tier _ = 0

-- The leading signs of `parseSimple`.
unfoldable pub is_sign : Kind → Bool
is_sign Kind.plus = true
is_sign Kind.minus = true
is_sign _ = false

-- The unary operators of `parseFactor`.
unfoldable pub is_abs_not : Kind → Bool
is_abs_not Kind.kw_abs = true
is_abs_not Kind.kw_not = true
is_abs_not _ = false

-- The directions of a range in `parseExpr`.
unfoldable pub is_direction : Kind → Bool
is_direction Kind.kw_to = true
is_direction Kind.kw_downto = true
is_direction _ = false

-- What may follow a dot in `parseName`.
unfoldable pub is_selector : Kind → Bool
is_selector Kind.ident = true
is_selector Kind.ext_ident = true
is_selector Kind.kw_all = true
is_selector _ = false
