-- ===== src/Hevc.antt =====
-- src/hevc.c: HEVC parameter sets and slice headers.
pub mod Reader
pub mod Golomb
pub mod Slice
pub mod SliceInfo
pub mod Rps
pub mod Parameters
pub mod Validate
pub mod Validated
pub mod Matrices
pub mod Writers
pub mod Syntax
pub mod SpsSyntax
pub mod PpsSyntax
pub mod ReadPps
pub mod Read
pub mod Rewrite
mod Examples
mod HeaderExamples
