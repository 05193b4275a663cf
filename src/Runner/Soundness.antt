-- ===== src/Runner/Soundness.antt =====
-- The operations of the engine together: step rows and runs through its histories.
pub mod Rows
pub mod Moves
pub mod Quiet
pub mod Work
pub mod Finish
pub mod Restart
pub mod World
pub mod Births
pub mod Flights
pub mod Protocol
pub mod Guarded
pub mod Endings
pub mod Aftermath
pub mod NoReturn
pub mod Undisturbed
pub mod Inserted
pub mod Exclusive
