-- ===== src/Policy/Names.antt =====
-- policy/*action.go: the action names and the tables of supported actions.
pub mod S3
pub mod Supported
pub mod AdminA
pub mod AdminB
pub mod Admin
pub mod Kms
pub mod Sts
pub mod Table
pub mod TableList
pub mod Vectors
pub mod Implicit
pub mod IamKeys
pub mod TableKeys
