-- ===== src/Projects.antt =====
-- packages/core/src/modules/projects: what a project is contracted for and the lines that state it.
pub mod Contract
pub mod BillingPlan
pub mod PlanSums
pub mod PlanExact
