-- ===== src/Model.antt =====
-- The data that the components exchange: model/device_model.h and model/device_model.c, and the
-- configuration record of platform/config.h.
pub mod Enums
pub mod Types
pub mod Build
pub mod Health
pub mod Limits
pub mod Samples
mod Tests
