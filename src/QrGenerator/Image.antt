-- ===== src/QrGenerator/Image.antt =====
-- src/utils/qr_generator.cc: a reader of PNG files finds the modules in what `qr_to_png` writes.
use Prim.Native.Nat.{max}
use bit_link.Prelude.{
  ℕ, ◌+◌, ◌-◌, ◌*◌, ◌/◌, ◌%◌, ◌<◌, ◌≤◌, ◌≡◌, ◌⊎◌, refl, ◌∙◌, some, false, ◌==◌, ◌||◌, arith,
}
use bit_link.Str.{Bytes}
use bit_link.QrGenerator.Png.{pixel}
use bit_link.QrGenerator.Png.RoundTrip.{read_png, read_png-create_simple_png}
use bit_link.QrGenerator.Bitmap.{scale_of, color_of, fill_bitmap, qr_to_png}
use bit_link.QrGenerator.Pixels.{place, IsBorder, fill_bitmap_lem, fill_bitmap_border}

-- The points along a module's side, and along the image's: four modules of border on either side.
abbrev pub module_side : ℕ → ℕ → ℕ
module_side qr_size image_size = max 1 (image_size / qr_size)

abbrev pub image_side : ℕ → ℕ → ℕ
image_side qr_size image_size =
    qr_size * module_side qr_size image_size + module_side qr_size image_size * 4 * 2

-- Black for a module whose lowest bit is set, else white.
abbrev pub shade : ℕ → ℕ
shade m = 255 - 255 * (m % 2)

scale_of_lem :
    (qr_size image_size : ℕ) → scale_of qr_size image_size ≡ module_side qr_size image_size
scale_of_lem qr_size image_size = ground arith

color_of_lem : (m : ℕ) → color_of m ≡ shade m
color_of_lem m = ground arith

-- For an image size that is not 0, a reader of PNG files that checks the signature and all
-- checksums finds in the image of a QR code a square with a border of four modules. The side of a
-- module is the image size divided by the number of modules in a row, rounded down, and one point
-- at least. Every point of a module's square is black where the module's lowest bit is set and
-- white elsewhere, and every point of the border is white, as long as the rows with their filter
-- types take at most 700,000,000 bytes.
pub read_png-qr_to_png :
    (qr_data : Bytes) (qr_size image_size x y sx sy row column : ℕ)
    → 0 < image_size
    → image_side qr_size image_size * (image_side qr_size image_size + 1) ≤ 700000000
    → x < qr_size
    → y < qr_size
    → sx < module_side qr_size image_size
    → sy < module_side qr_size image_size
    → row < image_side qr_size image_size
    → column < image_side qr_size image_size
    → IsBorder (module_side qr_size image_size) qr_size row
      ⊎ IsBorder (module_side qr_size image_size) qr_size column
    → (bitmap : Bytes) × (read_png (qr_to_png qr_data qr_size image_size)
        ≡ some (image_side qr_size image_size, image_side qr_size image_size, bitmap))
      × (pixel bitmap
            (place (module_side qr_size image_size) (image_side qr_size image_size) x y sx sy)
          ≡ shade (pixel qr_data (y * qr_size + x)))
      × (pixel bitmap (row * image_side qr_size image_size + column) ≡ 255)
unfolding qr_to_png
read_png-qr_to_png qr_data qr_size image_size x y sx sy row column some_image small hx hy hsx hsy
      in_row in_column outside =
    let scale = module_side qr_size image_size in
    let total = image_side qr_size image_size in
    let bitmap = fill_bitmap scale total qr_data qr_size in
    let (square, color) =
      fill_bitmap_lem scale total qr_size refl x y sx sy hx hy hsx hsy qr_data in
    let white =
      fill_bitmap_border scale total qr_size refl row column in_row in_column outside qr_data in
    let some_total : 0 < total = omega arith in
    let filled : (qr_size == 0 || image_size == 0) ≡ false = ground arith in
    (
      bitmap,
      rw (filled, scale_of_lem qr_size image_size)
          (read_png-create_simple_png bitmap total some_total square small),
      color ∙ color_of_lem (pixel qr_data (y * qr_size + x)),
      white,
    )
