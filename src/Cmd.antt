-- ===== src/Cmd.antt =====
-- The commands: cmd/gotchi/main.go with internal/scaffold, and cmd/migration-regression. A message
-- keeps its words and leaves out the values printed in it; what is printed on success is left out,
-- the counts of the export excepted.
pub mod Disk
pub mod Arguments
pub mod Scaffold
pub mod Export
pub mod Regression
mod Tests
