-- ===== src/Config/Syntax.antt =====
-- src/config_parser.cc, include/config_parser.h: `NginxConfig` and its `ToString`.
use bit_link.Prelude.{ℕ, zero, suc, List, [], ◌∷◌, ◌++◌}
use bit_link.Str.{Bytes, codes}

-- The statements of a configuration, in order: each has its tokens, and some have a block.
pub data NginxConfig : Type 0 where
  empty : NginxConfig
  plain : List Bytes → NginxConfig → NginxConfig
  block : List Bytes → NginxConfig → NginxConfig → NginxConfig

unfoldable pub indent : ℕ → Bytes
indent zero = []
indent (suc depth) = codes "  " ++ indent depth

-- The tokens with a space between them.
unfoldable pub show_tokens : List Bytes → Bytes
show_tokens [] = []
show_tokens (t ∷ []) = t
show_tokens (t ∷ u ∷ ts) = t ++ (codes " " ++ show_tokens (u ∷ ts))

unfoldable pub to_string : ℕ → NginxConfig → Bytes
to_string depth empty = []
to_string depth (plain tokens rest) =
    indent depth ++ (show_tokens tokens ++ (codes ";\n" ++ to_string depth rest))
to_string depth (block tokens child rest) =
    indent depth
    ++ (show_tokens tokens
        ++ (codes " {\n"
            ++ (to_string (suc depth) child
                ++ (indent depth ++ (codes "}\n" ++ to_string depth rest)))))
