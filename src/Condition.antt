-- ===== src/Condition.antt =====
-- policy/condition: condition keys, condition functions and what they evaluate to.
pub mod Names
pub mod Values
pub mod Keys
pub mod Functions
pub mod Name
pub mod Value
pub mod StringSets
pub mod NonEmpty
pub mod Strings
pub mod Images
pub mod StringMeaning
pub mod ListSets
pub mod Library
pub mod Numeric
pub mod Flags
pub mod StringValues
pub mod Dates
pub mod Addresses
pub mod Public
pub mod Concrete
pub mod NumericLaws
pub mod TextForms
pub mod Built
pub mod Rebuild
pub mod Evaluation
pub mod Json
pub mod JsonOrder
pub mod JsonRoundTrip
mod StringExamples
mod ValueExamples
