-- ===== src/Config/RoundTrip.antt =====
-- src/config_parser.cc: `Parse` against `ToString`.
use bit_link.Prelude.{
  ℕ, suc, ◌≡◌, inl, inr, refl, sym, ap, ◌∙◌, List, [], ◌∷◌, ◌++◌, Bool, true, false, All,
  append_assoc, append-nil, arith,
}
use bit_link.Str.{Bytes, codes}
use bit_link.Config.Syntax.{NginxConfig, empty, plain, block, indent, to_string}
use bit_link.Config.Lexer.{TokenType, start, start_block, end_block, statement_end, parse_token}
use bit_link.Config.Lexer.Words.{IsToken}
use bit_link.Config.Parser.{
  may_precede_end, may_precede_eof, on_eof, parse_round, valid, parse_loop, parse,
}
use bit_link.Config.Parser.Fuel.{run}
use bit_link.Config.Parser.Build.{append, append_nested, append-empty}
use bit_link.Config.Parser.Runs.{
  at, Flags, IsReady, run-show_tokens, run_semicolon, run_open, run_close,
}

-- A statement has a token at least, and what follows `listen` is a number. The flags say whether
-- a number is due in front of the configuration, and behind it.
abbrev pub IsPrintable : Bool → NginxConfig → Bool → Type 0
IsPrintable e empty e' = e ≡ e'
IsPrintable e (plain [] rest) e' = ⊥
IsPrintable e (plain (t ∷ ts) rest) e' =
    All IsToken (t ∷ ts) × ((f : Bool) × Flags e (t ∷ ts) f × IsPrintable f rest e')
IsPrintable e (block [] child rest) e' = ⊥
IsPrintable e (block (t ∷ ts) child rest) e' =
    All IsToken (t ∷ ts)
    × ((f : Bool) × (g : Bool) × Flags e (t ∷ ts) f × IsPrintable f child g × IsPrintable g rest e')

-- The last token of a configuration that stands behind another token.
abbrev last_kind : TokenType → NginxConfig → TokenType
last_kind last empty = last
last_kind last (plain ts rest) = last_kind statement_end rest
last_kind last (block ts child rest) = last_kind end_block rest

-- Such a token may stand in front of a brace that closes.
may_close :
    (last : TokenType) (c : NginxConfig)
    → may_precede_end last ≡ true
    → may_precede_end (last_kind last c) ≡ true
may_close last empty h = h
may_close last (plain ts rest) h = may_close statement_end rest refl
may_close last (block ts child rest) h = may_close end_block rest refl

may_stop :
    (last : TokenType) (c : NginxConfig)
    → may_precede_eof last ≡ true
    → may_precede_eof (last_kind last c) ≡ true
may_stop last empty h = h
may_stop last (plain ts rest) h = may_stop statement_end rest refl
may_stop last (block ts child rest) h = may_stop end_block rest refl

run-to_string :
    (config c : NginxConfig) (outer : List NginxConfig) (last : TokenType) (e e' : Bool) (n : ℕ)
    (s : Bytes)
    → IsReady last
    → IsPrintable e config e'
    → run (at c outer last e) (to_string n config ++ s)
      ≡ run (at (append c config) outer (last_kind last config) e') s
unfolding to_string append
run-to_string empty c outer last e e' n s ready same = rw (same, append-empty c) refl
run-to_string (plain [] rest) c outer last e e' n s ready h = absurd h
run-to_string (plain (t ∷ ts) rest) c outer last e e' n s ready (tokens, (f, flags, printable)) =
    let more = to_string n rest ++ s in
    ap (run (at c outer last e)) (simp append_assoc)
    ∙ run-show_tokens n c outer last e f t ts (codes ";\n" ++ more) ready tokens (inr refl) flags
    ∙ run_semicolon (append c (plain (t ∷ ts) empty)) outer f more
    ∙ run-to_string rest (append c (plain (t ∷ ts) empty)) outer statement_end f e' n s (refl, refl)
        printable
    ∙ ap (λ d. run (at d outer (last_kind statement_end rest) e') s)
        (append_nested c (plain (t ∷ ts) empty) rest)
run-to_string (block [] child rest) c outer last e e' n s ready h = absurd h
run-to_string (block (t ∷ ts) child rest) c outer last e e' n s ready
      (tokens, (f, g, flags, inside, printable)) =
    let more = to_string n rest ++ s in
    let close = indent n ++ (codes "}\n" ++ more) in
    let opened = append c (plain (t ∷ ts) empty) in
    ap (run (at c outer last e)) (simp append_assoc)
    ∙ run-show_tokens n c outer last e f t ts (codes " {\n" ++ (to_string (suc n) child ++ close))
        ready tokens (inl refl) flags
    ∙ run_open opened outer f (to_string (suc n) child ++ close)
    ∙ run-to_string child empty (opened ∷ outer) start_block f g (suc n) close (refl, refl) inside
    ∙ run_close n child c (t ∷ ts) outer (last_kind start_block child) g more
        (may_close start_block child refl)
    ∙ run-to_string rest (append c (block (t ∷ ts) child empty)) outer end_block g e' n s
        (refl, refl) printable
    ∙ ap (λ d. run (at d outer (last_kind end_block rest) e') s)
        (append_nested c (block (t ∷ ts) child empty) rest)

at_end :
    (config : NginxConfig) (e : Bool)
    → run (at (append empty config) [] (last_kind start config) e) [] ≡ valid config
unfolding append parse_loop parse_token parse_round on_eof
at_end config e = ground (arith, may_stop start config refl)

-- A configuration whose tokens are words or plain quoted texts, and in which a number follows each
-- `listen`, is read back as it was printed: the same statements, tokens and blocks.
pub parse-to_string :
    (config : NginxConfig) (e : Bool)
    → IsPrintable false config e
    → parse (to_string 0 config) ≡ valid config
unfolding parse
parse-to_string config e h =
    ap parse (sym (append-nil (to_string 0 config)))
    ∙ run-to_string config empty [] start false e 0 [] (refl, refl) h
    ∙ at_end config e
