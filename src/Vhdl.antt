-- ===== src/Vhdl.antt =====
-- tools/socgen/vhdl: the VHDL front end.
pub mod Kind
pub mod Token
pub mod Source
pub mod Ast
pub mod Lexer
pub mod TokenStream
pub mod Nodes
pub mod Printer
pub mod Parser
