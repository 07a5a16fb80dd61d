-- ===== src/Deployment.antt =====
-- The deployment pipeline, services/deployment-pipeline/src/deployment_pipeline.
pub mod Models
pub mod Workflow
mod Tests
