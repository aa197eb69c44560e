-- ===== src/Tests.antt =====
-- Concrete runs: the theorems at concrete inputs, on a small game and with concrete functions in place
-- of the libraries'.
mod Printing
mod Data
mod Forms
mod Service
mod Captures
mod Transport
mod Messages
mod Settings
mod Storage
mod Scenery
mod Displays
mod Games
