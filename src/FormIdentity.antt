-- ===== src/FormIdentity.antt =====
-- FormIdentity.h and FormIdentity.cpp: the identity of a form, and the text in which the 19 slots of
-- an actor travel. `Hex` is the coding of byte strings, `Slots` the coding of the slots, and `Forms`
-- goes from the forms of the game to identities and back.
pub mod Hex
pub mod Slots
pub mod Forms
