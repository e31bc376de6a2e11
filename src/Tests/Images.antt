-- ===== src/Tests/Images.antt =====
-- Images and their texts at concrete inputs.
use bit_link.Prelude.{◌+◌, ◌*◌, ◌≡◌, refl, [], ◌∷◌, some, inl, inr, arith}
use bit_link.Str.{Bytes, codes}
use bit_link.QrGenerator.Base64.{base64_encode, rfc4648, base64_encode-rfc4648}
use bit_link.QrGenerator.Png.{pixel, create_simple_png}
use bit_link.QrGenerator.Bitmap.{qr_to_png}
use bit_link.QrGenerator.Pixels.{place}
use bit_link.QrGenerator.Image.{read_png-qr_to_png}
use bit_link.QrGenerator.Png.RoundTrip.{read_png, read_png-create_simple_png}

base64_encode-rfc4648_example : base64_encode (codes "hello") ≡ rfc4648 (codes "hello")
base64_encode-rfc4648_example = base64_encode-rfc4648 (codes "hello") (omega arith)

abbrev checkered : Bytes
checkered = 0 ∷ 255 ∷ 255 ∷ 0 ∷ []

read_png-create_simple_png_example :
    read_png (create_simple_png checkered 2) ≡ some (2, 2, checkered)
read_png-create_simple_png_example =
    read_png-create_simple_png checkered 2 (omega arith) refl (omega arith)

-- Two black modules of four, each one point of an image of ten by ten.
abbrev modules : Bytes
modules = 1 ∷ 0 ∷ 0 ∷ 1 ∷ []

read_png-qr_to_png_example :
    (bitmap : Bytes) × (read_png (qr_to_png modules 2 3) ≡ some (10, 10, bitmap))
    × (pixel bitmap (place 1 10 1 1 0 0) ≡ 0)
    × (pixel bitmap (9 * 10 + 4) ≡ 255)
read_png-qr_to_png_example =
    read_png-qr_to_png modules 2 3 1 1 0 0 9 4 (omega arith) (omega arith) (omega arith)
      (omega arith) (omega arith) (omega arith) (omega arith) (omega arith)
      (inl (inr (omega arith)))
