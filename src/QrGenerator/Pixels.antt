-- ===== src/QrGenerator/Pixels.antt =====
-- src/utils/qr_generator.cc: every pixel of the bitmap that `qr_to_png` fills.
use bit_link.Prelude.{ℕ, ◌+◌, ◌*◌, ◌<◌, ◌≤◌, ◌≡◌, ◌≢◌, ◌⊎◌, inl, inr, ◌∙◌, length, arith}
use bit_link.Str.{Bytes}
use bit_link.QrGenerator.Png.{pixel}
use bit_link.QrGenerator.Bitmap.{loop, white, color_of, fill_module, fill_bitmap}
use bit_link.QrGenerator.Steps.{
  Keeps, Sets, loop-Keeps, loop-Sets, set-Keeps, set-Sets, digits-lt, digits-ne, digits-ne_low,
  length-white, pixel-white,
}

-- A row or a column in front of the modules or behind them.
abbrev pub IsBorder : ℕ → ℕ → ℕ → Type 0
IsBorder scale qr_size i = (i < scale * 4) ⊎ (scale * 4 + qr_size * scale ≤ i)

-- The place of a point of a module's square.
abbrev pub row_of : ℕ → ℕ → ℕ → ℕ
row_of scale y sy = scale * 4 + y * scale + sy

abbrev pub place : ℕ → ℕ → ℕ → ℕ → ℕ → ℕ → ℕ
place scale total_size x y sx sy = row_of scale y sy * total_size + row_of scale x sx

module _ (scale total_size qr_size : ℕ)
    (size_is : total_size ≡ qr_size * scale + scale * 4 * 2) where
  row_of-lt : (x sx : ℕ) → x < qr_size → sx < scale → row_of scale x sx < total_size
  row_of-lt x sx h l = let below = digits-lt x qr_size sx scale h l in omega arith

  -- A row or a column of the border.
  row_of-IsBorder :
      (x sx i : ℕ) → x < qr_size → sx < scale → IsBorder scale qr_size i → row_of scale x sx ≢ i
  row_of-IsBorder x sx i h l (inl low) e = omega arith
  row_of-IsBorder x sx i h l (inr high) e =
      let below = digits-lt x qr_size sx scale h l in omega arith

  module _ (row column : ℕ) (in_row : row < total_size) (in_column : column < total_size)
      (outside : IsBorder scale qr_size row ⊎ IsBorder scale qr_size column) where
    abbrev point : ℕ
    point = row * total_size + column

    module-Keeps :
        (x y c : ℕ)
        → x < qr_size
        → y < qr_size
        → Keeps (total_size * total_size) point (fill_module scale total_size x y c)
    unfolding fill_module
    module-Keeps x y c hx hy = loop-Keeps (total_size * total_size) point scale _ (λ sy lt.
        loop-Keeps (total_size * total_size) point scale _ (λ sx lt'.
          set-Keeps (total_size * total_size) (place scale total_size x y sx sy) point c
            (apart sx sy lt' lt outside)))
      where
        apart :
            (sx sy : ℕ)
            → sx < scale
            → sy < scale
            → IsBorder scale qr_size row ⊎ IsBorder scale qr_size column
            → place scale total_size x y sx sy ≢ point
        apart sx sy l l' (inl border) =
            digits-ne (row_of scale y sy) row (row_of scale x sx) column total_size
              (row_of-lt x sx hx l) in_column (row_of-IsBorder y sy row hy l' border)
        apart sx sy l l' (inr border) =
            digits-ne_low (row_of scale y sy) row (row_of scale x sx) column total_size
              (row_of-lt x sx hx l) in_column (row_of-IsBorder x sx column hx l border)

    -- The border stays white.
    pub fill_bitmap_border :
        (qr_data : Bytes)
        → pixel (fill_bitmap scale total_size qr_data qr_size) (row * total_size + column) ≡ 255
    unfolding fill_bitmap
    fill_bitmap_border qr_data =
        let area = total_size * total_size in
        let keeps =
          loop-Keeps area point qr_size
            (λ y.
              loop qr_size (λ x.
                fill_module scale total_size x y (color_of (pixel qr_data (y * qr_size + x)))))
            (λ y lt.
              loop-Keeps area point qr_size _
                (λ x lt'. module-Keeps x y (color_of (pixel qr_data (y * qr_size + x))) lt' lt)) in
        (keeps (white area) (length-white area)).1
        ∙ pixel-white area point (digits-lt row total_size column total_size in_row in_column)

  row_of-ne :
      (x x' sx sx' : ℕ)
      → sx < scale
      → sx' < scale
      → x ≢ x'
      → row_of scale x sx ≢ row_of scale x' sx'
  row_of-ne x x' sx sx' l l' ne e = digits-ne x x' sx sx' scale l l' ne (omega arith)

  module _ (x y sx sy : ℕ) (hx : x < qr_size) (hy : y < qr_size) (hsx : sx < scale)
      (hsy : sy < scale) where
    abbrev spot : ℕ
    spot = place scale total_size x y sx sy

    abbrev area : ℕ
    area = total_size * total_size

    spot-lt : spot < area
    spot-lt =
        digits-lt (row_of scale y sy) total_size (row_of scale x sx) total_size
          (row_of-lt y sy hy hsy) (row_of-lt x sx hx hsx)

    -- The square of another module.
    other-Keeps :
        (x' y' c : ℕ)
        → x' < qr_size
        → y' < qr_size
        → (x' ≢ x) ⊎ (y' ≢ y)
        → Keeps area spot (fill_module scale total_size x' y' c)
    unfolding fill_module
    other-Keeps x' y' c hx' hy' apart = loop-Keeps area spot scale _ (λ sy' lt.
        loop-Keeps area spot scale _ (λ sx' lt'.
          set-Keeps area (place scale total_size x' y' sx' sy') spot c
            (places-ne sx' sy' lt' lt apart)))
      where
        places-ne :
            (sx' sy' : ℕ)
            → sx' < scale
            → sy' < scale
            → (x' ≢ x) ⊎ (y' ≢ y)
            → place scale total_size x' y' sx' sy' ≢ spot
        places-ne sx' sy' lt' lt (inl ne) =
            digits-ne_low (row_of scale y' sy') (row_of scale y sy) (row_of scale x' sx')
              (row_of scale x sx) total_size (row_of-lt x' sx' hx' lt') (row_of-lt x sx hx hsx)
              (row_of-ne x' x sx' sx lt' hsx ne)
        places-ne sx' sy' lt' lt (inr ne) =
            digits-ne (row_of scale y' sy') (row_of scale y sy) (row_of scale x' sx')
              (row_of scale x sx) total_size (row_of-lt x' sx' hx' lt') (row_of-lt x sx hx hsx)
              (row_of-ne y' y sy' sy lt hsy ne)

    own-Sets : (c : ℕ) → Sets area spot c (fill_module scale total_size x y c)
    unfolding fill_module
    own-Sets c =
        loop-Sets area spot c scale sy _ hsy
          (loop-Sets area spot c scale sx _ hsx (set-Sets area spot c spot-lt) (λ sx' lt ne.
            set-Keeps area (place scale total_size x y sx' sy) spot c (λ e. ne (column sx' e))))
          (λ sy' lt ne. loop-Keeps area spot scale _ (λ sx' lt'.
            set-Keeps area (place scale total_size x y sx' sy') spot c
              (λ e. other_row sx' sy' lt' ne e)))
      where
        column : (sx' : ℕ) → place scale total_size x y sx' sy ≡ spot → sx' ≡ sx
        column sx' e = omega arith

        other_row :
            (sx' sy' : ℕ) → sx' < scale → sy' ≢ sy → place scale total_size x y sx' sy' ≢ spot
        other_row sx' sy' lt' ne =
            digits-ne (row_of scale y sy') (row_of scale y sy) (row_of scale x sx')
              (row_of scale x sx) total_size (row_of-lt x sx' hx lt') (row_of-lt x sx hx hsx)
              (λ e. ne (omega arith))

    -- The bitmap is a square, and a point of a module's square has the module's color.
    pub fill_bitmap_lem :
        (qr_data : Bytes)
        → (length (fill_bitmap scale total_size qr_data qr_size) ≡ area)
          × (pixel (fill_bitmap scale total_size qr_data qr_size) (place scale total_size x y sx sy)
              ≡ color_of (pixel qr_data (y * qr_size + x)))
    unfolding fill_bitmap
    fill_bitmap_lem qr_data =
        let row : Sets area spot (color_of (pixel qr_data (y * qr_size + x))) (
            loop qr_size (λ x'.
              fill_module scale total_size x' y (color_of (pixel qr_data (y * qr_size + x'))))) =
          loop-Sets area spot _ qr_size x _ hx
            (own-Sets (color_of (pixel qr_data (y * qr_size + x))))
            (λ x' lt ne.
              other-Keeps x' y (color_of (pixel qr_data (y * qr_size + x'))) lt hy (inl ne)) in
        let all =
          loop-Sets area spot (color_of (pixel qr_data (y * qr_size + x))) qr_size y
            (λ y'. loop qr_size (λ x'.
              fill_module scale total_size x' y' (color_of (pixel qr_data (y' * qr_size + x')))))
            hy row
            (λ y' lt ne. loop-Keeps area spot qr_size _ (λ x' lt'.
              other-Keeps x' y' (color_of (pixel qr_data (y' * qr_size + x'))) lt' lt (inr ne))) in
        all (white area) (length-white area)
