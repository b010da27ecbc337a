-- ===== src/Upload.antt =====
-- Uploading images (src/modules/upload, src/core/aws/aws-s3.service.ts).
pub mod Storage
pub mod Service
pub mod Bounds
