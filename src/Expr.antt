-- ===== src/Expr.antt =====
-- database_utils/utils/playbook_expr.py: declared integer arithmetic for playbooks.
-- The children hold the error codes, the secret-name rule, the tokenizer, the parser, the
-- evaluator and the loop over a `computed` block.
pub mod Codes
pub mod Lexer
pub mod Parser
pub mod Eval
pub mod Block
pub mod Ensures
pub mod Totality
pub mod Tokens
pub mod Fuel
pub mod Printer
pub mod Steps
pub mod RoundTrip
pub mod Arith
pub mod Exact
pub mod Names
pub mod ScanLaws
pub mod BlockLaws
pub mod DeclaredScan
pub mod DeclaredLaws
mod Examples
