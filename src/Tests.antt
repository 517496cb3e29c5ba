-- ===== src/Tests.antt =====
-- Runs of the models on concrete inputs, and the theorems applied to such inputs.
mod CommandLineTests
mod InterpreterTests
mod BufferTests
mod AppTests
mod PathTests
mod ConsoleTests
mod NavTests
mod WindowTests
mod BindingTests
