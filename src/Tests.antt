-- ===== src/Tests.antt =====
-- Concrete runs of the models, and the theorems at concrete inputs.
mod Queue
mod Quota
mod Schedule
mod Web
mod Retrieval
mod Graph
mod Grounding
mod Uploads
mod Watermark
mod LongText
mod Merit
mod Quality
mod Promotion
mod Logto
