-- ===== src/QrGenerator.antt =====
-- src/utils/qr_generator.cc: `QRCodeGenerator`.
pub mod Base64
pub mod Checksums
pub mod Deflate
pub mod Png
pub mod Bitmap
pub mod Steps
pub mod Pixels
pub mod Image
