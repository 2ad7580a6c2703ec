-- ===== src/Shell.antt =====
-- The shell, src/ml_shell.c: the line buffer in Line, against a pair of texts before and behind the
-- cursor in Zipper; the parser in Parse and Quoting; the history in History and Recall; completion
-- in Complete; the keys in Keys, Search and Reader, with Editing, Moves, Edits, Typing and Rounds;
-- the commands in Registry, Names and Dispatch; the thread in Main and Session.
pub mod Line
pub mod Zipper
pub mod Parse
pub mod Quoting
pub mod History
pub mod Recall
pub mod Complete
pub mod Keys
pub mod Search
pub mod Reader
pub mod Editing
pub mod Moves
pub mod Edits
pub mod Typing
pub mod Entered
pub mod Rounds
pub mod Registry
pub mod Names
pub mod Dispatch
pub mod Main
pub mod Session
mod Tests
