-- ===== src/Rc.antt =====
-- The compiler of src/rc: its lexer, its symbol table and its emitter of machine code.
pub mod Emit
pub mod Lex
pub mod Sym
