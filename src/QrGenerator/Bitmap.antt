-- ===== src/QrGenerator/Bitmap.antt =====
-- src/utils/qr_generator.cc: `qr_to_png`, `generate_png` and `generate_data_url`. The encoder of
-- libqrencode is a parameter; the sizes are natural numbers whose squares an `int` holds.
use bit_link.Prelude.{
  ℕ, zero, suc, ◌+◌, ◌*◌, ◌/◌, ◌%◌, [], ◌∷◌, ◌++◌, Option, none, some, Bool, false, ◌||◌, ltb, ◌==◌,
  if◌then◌else◌,
}
use bit_link.Str.{Bytes, codes, is_empty}
use bit_link.QrGenerator.Base64.{base64_encode}
use bit_link.QrGenerator.Png.{pixel, create_simple_png}

-- The rounds from 0 to n - 1 of a loop.
abbrev pub loop : ℕ → (ℕ → Bytes → Bytes) → Bytes → Bytes
loop zero f bitmap = bitmap
loop (suc n) f bitmap = f n (loop n f bitmap)

abbrev pub white : ℕ → Bytes
white zero = []
white (suc n) = 255 ∷ white n

unfoldable pub set_pixel : ℕ → ℕ → Bytes → Bytes
set_pixel i color [] = []
set_pixel zero color (c ∷ bitmap) = color ∷ bitmap
set_pixel (suc i) color (c ∷ bitmap) = c ∷ set_pixel i color bitmap

abbrev pub color_of : ℕ → ℕ
color_of m = if m % 2 == 1 then 0 else 255

abbrev pub scale_of : ℕ → ℕ → ℕ
scale_of qr_size image_size = if ltb 1 (image_size / qr_size) then image_size / qr_size else 1

-- A module's square, in the bitmap with its border.
unfoldable pub fill_module : ℕ → ℕ → ℕ → ℕ → ℕ → Bytes → Bytes
fill_module scale total_size x y color bitmap =
    loop scale
      (λ sy. loop scale (λ sx.
        set_pixel ((scale * 4 + y * scale + sy) * total_size + (scale * 4 + x * scale + sx)) color))
      bitmap

unfoldable pub fill_bitmap : ℕ → ℕ → Bytes → ℕ → Bytes
fill_bitmap scale total_size qr_data qr_size =
    loop qr_size
      (λ y.
        loop qr_size
          (λ x. fill_module scale total_size x y (color_of (pixel qr_data (y * qr_size + x)))))
      (white (total_size * total_size))

unfoldable pub qr_to_png : Bytes → ℕ → ℕ → Bytes
qr_to_png qr_data qr_size image_size =
    let scale = scale_of qr_size image_size in
    let total_size = qr_size * scale + scale * 4 * 2 in
    if qr_size == 0 || image_size == 0
    then []
    else create_simple_png (fill_bitmap scale total_size qr_data qr_size) total_size

pub data ErrorCorrection : Type 0 where
  low medium quartile high : ErrorCorrection

-- The modules and the width of a text's QR code.
module _ (encode : ErrorCorrection → Bytes → Option (Bytes × ℕ)) where
  unfoldable pub generate_png : Bytes → ℕ → ErrorCorrection → Bytes
  generate_png text size error_correction =
      if is_empty text || size == 0 then [] else elim (encode error_correction text) [
        | none ↦ []
        | some (modules, width) ↦ qr_to_png modules width size
      ]

  unfoldable pub generate_data_url : Bytes → ℕ → ErrorCorrection → Bytes
  generate_data_url text size error_correction =
      let png_data = generate_png text size error_correction in
      if is_empty png_data then [] else codes "data:image/png;base64," ++ base64_encode png_data

  -- The writing of a file is a parameter.
  unfoldable pub save_qr_code :
      {S : Type 0}
      → (Bytes → Bytes → S → S × Bool)
      → Bytes
      → Bytes
      → ℕ
      → ErrorCorrection
      → S
      → S × Bool
  save_qr_code write text file_path size error_correction s =
      let png_data = generate_png text size error_correction in
      if is_empty file_path || is_empty png_data then (s, false) else write file_path png_data s
