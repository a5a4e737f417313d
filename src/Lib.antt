-- ===== src/Lib.antt =====
-- A lookalike of the timesharing system RSTS/E V7.2, in Go: users log in to accounts, write and run
-- BASIC-PLUS and Pascal programs on a simulated disk, print files, and control other jobs through
-- pseudo keyboards. Modelled here is the core of the parts that keep state or a format of their own:
--
--   Pascal     pascal_pcode.go: the image of a compiled program, `marshal`, `unmarshalPascalImage`,
--              `rebuildTypes`
--   Basic      pcode.go: the image of a compiled program, `Marshal`, `unmarshalPcode`, `lineIP`,
--              `nextLineIP`; token.go: the tokenizer (Basic/Token); interp.go: values, variables,
--              arrays and operators (Basic/Machine) and the evaluator of expressions (Basic/Expr);
--              parser.go: `parseExpr` with the levels below it (Basic/Parser);
--              pcode_compile.go: the compiler of expressions (Basic/Compiler); pcode_vm.go: the
--              machine of compiled programs (Basic/Vm)
--   Disk       filesystem.go: protection codes, record locks, exclusive claims
--   Accounts   accounts.go: the account file and every operation that changes it
--   Spool      queue.go: the print queue
--   Ccl        ccl.go: the table of commands
--   Jobs       system.go: the job table
--   Strings    strarith.go: numbers held as characters, their sums, differences and products,
--              rounding and Radix-50
--   Tape       magtape.go: the format of backup tapes, `writeBckFile`, `restoreBackup`
--   Pk         pk.go: the link of a pseudo keyboard, its line editor, its units
--   Bytes      the little-endian words, strings and lists that both image formats share, with a
--              reader that fails or returns a value and the bytes left
--   Text       upper and lower case, trimming and decimals
--   Prelude    the names that all modules share
--   Tests      concrete runs of the models
--
-- The files of the host stand in the models as values: the bytes of an image, what a JSON file
-- holds, and an argument `io` that says whether a write succeeds. Operations that hold a lock are
-- single steps; an operation that waits is modelled by the pass that it makes when it wakes, so
-- that the interleavings are the sequences of steps of an inductive type
-- (`Accounts.Invariant.Steps`, `Spool.Order.Steps`, `Jobs.Attach.Steps`,
-- `Disk.Claims.Exclusion.Reach`, `Pk.History.History`). Numbers are natural numbers with the
-- wrap-around of their width written out; a float is its bit pattern, and the reading of floats
-- is a parameter of the tokenizer. The machine of BASIC-PLUS takes its arithmetic (`Arithmetic`),
-- the functions built into the language (`Builtins`) and the instructions for files, printing and
-- input (`Devices`) as parameters; a panic of the host is an outcome of its own (`crashed`). Its
-- loop has the limit of 10000000 instructions that the source has; `exec` is a given number of
-- them. Its memory is not limited, and virtual arrays and interrupts are left out. The tokenizer
-- counts its rounds down from the length of the text, which is enough since every round moves on
-- by a character; the parser of expressions counts down from the number of tokens, which is
-- enough since each level takes a token; all other loops are by structural recursion. A terminal
-- takes what the line editor writes to it: the editor's echo is part of its result, and that a
-- write fails on a link that is dead is not modelled there. Texts are the bytes of ASCII: letters
-- beyond ASCII, which `strings.ToUpper` and `strings.EqualFold` fold and `strings.TrimSpace` may
-- trim, are left out. The sizes and offsets of arrays wrap at 64 bits, and how large a slice the
-- host makes is part of the parameter `Arithmetic`. Of the errors that end an instruction, only
-- those of the language (`BasicError`) are there.
--
-- Not modelled: the shell and its commands, the parser, compiler and interpreter of BASIC-PLUS
-- statements, the Pascal compiler and machine, sessions, packs and devices, and the lines to
-- terminals.
pub mod Prelude
pub mod Bytes
pub mod Text
pub mod Pascal
pub mod Basic
pub mod Disk
pub mod Accounts
pub mod Spool
pub mod Ccl
pub mod Jobs
pub mod Strings
pub mod Tape
pub mod Pk
pub mod Tests
