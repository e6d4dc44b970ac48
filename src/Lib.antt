-- ===== src/Lib.antt =====
-- utot translates Uppaal models into TChecker models. The library utap parses and checks a model; the
-- program walks the parsed model and writes TChecker declarations, one line at a time.
--
-- The parts and their files, from the root of the repository:
-- * src/utot-tchecker.hh, class outputter: Tchecker.antt. The stream is the list of the lines written
--   so far; Tchecker/Render.antt prints a line as the methods do, and Tchecker/Scope.antt says what a
--   line needs declared; Tchecker/Reading.antt reads the text of a vector.
-- * src/utot-contextprefix.hh, the prefix of local names: Prefix.antt.
-- * src/utot-expr.cc, eval_integer_constant: Expr.antt (with compute_range_bounds of src/utot-decl.cc);
--   translate_expression, translate_event_expression, translate_assignment: Translate.antt, with a
--   reader of the text (Translate/Terms, Reader, Parts) and its value in a store (Translate/Values); its assignments
--   are statements (Translate/Statements), for those of the expression (Translate/Assignments).
-- * src/utot-decl.cc, which arrays TChecker has: Arrays.antt; translate_declarations: Decl.antt.
-- * src/utot-translate.cc, edges: Edges.antt; locations, processes and translate_model:
--   Processes.antt; s_generate_sync_vectors: Sync.antt. Processes/Recorded.antt names one edge of one
--   instance with one choice of its selections.
-- * src/utot.cpp, options, input language, name of the system, main: Driver.antt; its
--   warnings and messages: Driver/Warnings.antt and Driver/Console.antt.
-- * src/utot.hh, levels of verbosity, messages, warnings and errors: Messages.antt.
-- A function keeps its name, less the s_ of static functions. Translations run over a System (Model.antt),
-- which holds what the code reads of the parsed model. The parts interact through the writer and
-- through GlobalEvents: translate_edges enters each label in its tables, and generate_sync_vectors
-- reads them when all processes are translated.
--
-- The library utap is a parameter: Utap.antt has its expressions and types as data, and its queries as
-- the fields of the record Utap. A symbol is a number, as the code compares symbols by address.
--
-- Outcomes (Outcome.antt): `ok`, `thrown` for tr_err, `fault` where an assertion fails or C++ leaves
-- the behaviour undefined, and `out_of_fuel`, which has no counterpart. An int is an integer; an
-- operation whose result leaves the 32 bits is a fault. A loop over a range that ends at the largest
-- int is a fault too, as its counter overflows. Operands are evaluated from left to right. The
-- assertion of outputter::sync is no part of a step; Processes/Asserted.antt is about it.
-- A char is taken to be unsigned: isalnum is called on plain ones, which C++ leaves undefined for the
-- bytes from 128 on where char is signed.
--
-- Fuel: eval_integer_constant and the translations of expressions recur through the initialisers of
-- constants and the bindings of parameters, so each takes fuel, a unit for each call on the stack; in
-- translate_model `g` is the fuel of evaluations and `f` that of translations. Uppaal declares a
-- constant before it is used, so the calls nest only so deep, and a fuel above that depth is enough:
-- Expr/Halts.antt ranks the constants of a model, Expr/Fuel.antt compares fuels, and the
-- Ends.antt of each part is about the fuel that a ranked model needs.
-- All other loops recur on the list or the range that they run over. Decl/Ranges.antt says what a
-- `for` loop over a range runs through, from its tests and not from a count of its rounds.
--
-- std::map and std::set are lists sorted by key (Base/Maps.antt), since their order is the order of
-- the output. Sync/Plan.antt is the list of vectors that the three loops come to, and Sync/Meaning.antt
-- says without loops which vectors the tables ask for.
--
-- Not modelled: getopt_long, files and the parser (parameters of Driver.antt), the messages of the
-- translation but for the tables of events (Sync/Display.antt), what a failed translation had written
-- so far, outputter::commentml, which nothing calls, and the library utap.
pub mod Base
pub mod Tchecker
pub mod Sync
pub mod Messages
pub mod Outcome
pub mod Utap
pub mod Expr
pub mod Prefix
pub mod Arrays
pub mod Translate
pub mod Decl
pub mod Driver
pub mod Model
pub mod Edges
pub mod Examples
pub mod Processes
