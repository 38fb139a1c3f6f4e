-- ===== src/Examples.antt =====
-- The source's own tests, and the theorems at concrete inputs.
mod ParsingTests
mod Witnesses
mod Readings
mod Rounds
mod Launching
mod Runs
mod Prompts
mod Typing
mod Screens
mod Stuck
