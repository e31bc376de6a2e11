-- ===== src/Handlers/UrlShortener/Text.antt =====
-- src/handlers/url_shortener_handler.cc: the raw strings of the pages.
use Prim.Native.String.{String}
use bit_link.Prelude.{◌++◌, [], ◌∷◌, List}
use bit_link.Str.{Bytes, codes}

-- The lines with a newline between them.
abbrev pub text : List String → Bytes
text [] = []
text (l ∷ []) = codes l
text (l ∷ m ∷ ls) = codes l ++ (10 ∷ text (m ∷ ls))
