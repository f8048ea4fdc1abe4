-- ===== src/Scripts/Parser/RoundTrip.antt =====
-- Reading printed tokens, level by level. The lemmas are about any tokens `ts` that a level reads as
-- the expression `e`, in front of a rest at which the level stops.
pub mod Levels
pub mod Operators
pub mod Printed
pub mod Items
pub mod Whole
