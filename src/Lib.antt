-- ===== src/Lib.antt =====
-- The generator tools/socgen of the repository turns the description of a system on chip into VHDL.
-- A design is resolved (elaborate), its addresses and nets are checked, and the entities of the chip
-- are emitted (emit) over a VHDL library of its own (vhdl), which also reads the interfaces of the
-- components.
--
-- This library models the parts below. Go strings and byte slices are lists of bytes (Base.Text), a Go
-- `int` that can be negative is an integer (Base.Int), `uint64` is a number with the wrap-around
-- written out, maps are association lists in which the entry put last counts, errors are values in a
-- list, and pointers that are never written through are values. Sorting is insertion sort (Base.Sort).
--
-- - tools/socgen/vhdl/token.go: Vhdl.Kind (kinds, kindStr), Vhdl.Token (LookupKeyword), Vhdl.Source
--   (File, FileSet, Position).
-- - tools/socgen/vhdl/lexer.go: Vhdl.Lexer and Vhdl.Lexer.Scan. The lexer holds the bytes still to
--   read; every loop of Next is a recursion over them, so none needs fuel.
-- - tools/socgen/vhdl/parser.go: Vhdl.TokenStream, the loop of newParser with its cap as the fuel;
--   Vhdl.Parser, the cursor over the tokens (cur, at, advance, accept, expect, ensureProgress);
--   Vhdl.Parser.Monad and Vhdl.Parser.Loop, the sequencing of parsers, the guarded loops and the loops
--   that fold operators; Vhdl.Parser.Expr (parseExpr to parsePrimary, parseName, association lists,
--   aggregates), Vhdl.Parser.Common (names, subtypes, interfaces, waveforms, bindings),
--   Vhdl.Parser.Sequential, Vhdl.Parser.Declarations, Vhdl.Parser.Concurrent and Vhdl.Parser.Units
--   (parseFile). The parser's state is the current token, the tokens behind it and the errors; a loop
--   or a recursion has one unit of fuel for each token left and one more, and running out of it is
--   an error of its own, which the theorems on the errors rule out. Vhdl.Parser.Expr.Grammar is the
--   grammar of expressions by itself, as families of phrases.
-- - tools/socgen/vhdl/ast.go: Vhdl.Ast, the expressions and the nodes that the decoder is made of, and
--   Vhdl.Nodes, the declarations, statements and units; Vhdl.Ast.Run says what the statements of the
--   decoder return.
-- - tools/socgen/vhdl/printer.go: Vhdl.Printer (expressions, subtype indications), Vhdl.Printer.Parts
--   and Vhdl.Printer.Statements (printStmt, printDecl, for the nodes that the parser builds).
-- - tools/socgen/emit/databus.go: Decode.Bits, Decode.Radix, Decode (decodeFunction), Decode.Devices
--   (busDevicesOf). The recursion of buildIfs has fuel 33, one more than a trie over prefixes of at
--   most 32 bits is high.
-- - tools/socgen/elaborate/model.go and design/model.go: Elaborate.Model, Elaborate.Irq.Model.
-- - tools/socgen/elaborate/addr_validate.go: Elaborate.Address.
-- - tools/socgen/elaborate/irq.go: Elaborate.Irq (the scan of the AICs, the gathering of the
--   interrupts) and Elaborate.Irq.Wire (the wiring).
-- - tools/socgen/elaborate/netlist.go and netlist_validate.go: Elaborate.Net (gathering the ports of
--   the global signals, zero signals, the checks on the signals).
-- - tools/socgen/elaborate/prune.go: Elaborate.Prune.
-- - tools/socgen/elaborate/databus.go: Elaborate.Bus (classifyDataBus, resolvePeripheralBuses).
-- - tools/socgen/elaborate/categorize.go: Elaborate.Inject (injectInternalBusPorts).
-- - tools/socgen/emit/irq.go: Emit.Irq.
-- - tools/socgen/iface/extract.go, model.go and errors.go: Iface.Extract and Iface.Model. The pointers to
--   ports that applySocPortNames writes through are changes of the last port with the name.
-- The address checks and the decoder meet in Decode.Devices: the devices of a checked resolution are
-- the layout that the decoder is built for.
--
-- Not modelled: the positions in the nodes of the VHDL parser and the preprocessor before it, the
-- printing of design units and comments, the search for board files, the loading of
-- YAML documents, device trees, C headers, the rendering of the other entities, the command lines, and
-- the hardware and firmware sources. String methods that format messages are left out. Text is ASCII
-- where the code lower-cases or trims it. What the environment of the emitted VHDL does with the names
-- of the address bits is a parameter of the theorems, with the hypothesis NamesAddress of Decode.Ifs.
pub mod Base
pub mod Vhdl
pub mod Decode
pub mod Elaborate
pub mod Emit
pub mod Iface
mod Tests
