-- ===== src/Examples.antt =====
-- Runs of the model on concrete inputs (src/utot-translate.cc, src/utot-decl.cc, src/utot-expr.cc,
-- src/utot.cpp).
pub mod Sync
pub mod Model
pub mod Evaluation
pub mod Program
pub mod Choices
pub mod Values
pub mod Occurrences
pub mod Termination
pub mod Assignments
