-- ===== src/Policy.antt =====
-- policy: policies, their statements and the decisions that they make.
pub mod Names
pub mod Action
pub mod Scan
pub mod Effect
pub mod ActionSet
pub mod Resource
pub mod ResourceSet
pub mod Statement
pub mod KeyMaps
pub mod Decide
pub mod ActionTypes
pub mod Validate
pub mod Namespaces
pub mod Validity
pub mod Duplicates
pub mod BucketPolicy
pub mod BucketGrants
pub mod Parallel
pub mod Verdicts
pub mod Liveness
pub mod Schedule
pub mod ParallelRuns
pub mod Hardening
pub mod Withheld
pub mod Variables
pub mod ParseLoop
pub mod Parse
pub mod Decisions
pub mod Indexing
pub mod SetLaws
pub mod Defaults
pub mod DefaultGrants
mod DefaultExamples
pub mod Samples
pub mod Examples
mod RunExamples
mod ValidExamples
mod BucketExamples
